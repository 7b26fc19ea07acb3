-- ===== src/Jobs/Queue/Keys.antt =====
-- The key (job_id, seed) of the shards table, and the row that a claim picks.
use reproit_cloud.Jobs.Queue.{
  next_row, ShardRow, update, where_rows, has_key, row_key, is_claimable, first_row, row_key_ord,
  count, holds, is_claimed_by, is_running,
}
use reproit_cloud.Prelude.Order.SortBy.{sort_by, sort_by-All}
use reproit_cloud.Text.Compare.{text_eq_iff}
use reproit_cloud.Prelude.{
  ◌==◌, ==_iff, Bool-cases, &&-true, All, ℕ, ◌≡◌, refl, sym, ap, ap₂, subst, ◌∙◌, ◌≢◌, ◌↔◌, ◌⊎◌,
  inl, inr, Bool, true, false, not, ◌&&◌, Option, some, List, [], ◌∷◌, arith, some_eq,
}
use reproit_cloud.Text.{Text, text_eq}

-- No later row has the key of the row.
abbrev pub NoKey : ShardRow → List ShardRow → Type 0
NoKey r = All (λ r'. row_key r ≢ row_key r')

abbrev pub KeysDistinct : List ShardRow → Type 0
KeysDistinct [] = Unit {0}
KeysDistinct (r ∷ rows) = NoKey r rows × KeysDistinct rows

abbrev pub Has : ShardRow → List ShardRow → Type 0
Has r [] = ⊥
Has r (x ∷ rows) = (r ≡ x) ⊎ Has r rows

pub has_key_iff :
    (job_id : Text) (seed : ℕ) (r : ShardRow)
    → (has_key job_id seed r ≡ true) ↔ ((job_id, seed) ≡ row_key r)
has_key_iff job_id seed r = (
  (λ h.
      let (a, b) = &&-true (text_eq r.job_id job_id) (r.seed == seed) h in
      ap₂ (λ j s. (j, s)) (sym ((text_eq_iff r.job_id job_id).0 a))
        (sym ((==_iff r.seed seed).0 b))),
  (λ e.
      let a = (text_eq_iff r.job_id job_id).1 (sym (ap (λ k. k.0) e)) in
      let b = (==_iff r.seed seed).1 (sym (ap (λ k. k.1) e)) in rw a b),
)

pub update-NoKey :
    (test : ShardRow → Bool) (change : ShardRow → ShardRow)
    → ((r : ShardRow) → row_key (change r) ≡ row_key r)
    → (r : ShardRow) (rows : List ShardRow) → NoKey r rows
    → NoKey r (update test change rows)
unfolding update
update-NoKey test change same r [] h = tt
update-NoKey test change same r (x ∷ rows) (h, hs) = elim (Bool-cases (test x)) [
  | inl e ↦ rw e ((λ eq. h (eq ∙ same x)), update-NoKey test change same r rows hs)
  | inr e ↦ rw e (h, update-NoKey test change same r rows hs)
]

pub update-KeysDistinct :
    (test : ShardRow → Bool) (change : ShardRow → ShardRow)
    → ((r : ShardRow) → row_key (change r) ≡ row_key r)
    → (rows : List ShardRow) → KeysDistinct rows
    → KeysDistinct (update test change rows)
unfolding update
update-KeysDistinct test change same [] h = tt
update-KeysDistinct test change same (x ∷ rows) (h, hs) =
    let rest = update-KeysDistinct test change same rows hs in
    let none = update-NoKey test change same x rows h in
    elim (Bool-cases (test x)) [
      | inl e ↦ rw e (
        subst (λ k. All (λ r'. k ≢ row_key r') (update test change rows)) (sym (same x)) none,
        rest,
      )
      | inr e ↦ rw e (none, rest)
    ]

-- A row with the key of a row of the table is that row.
pub NoKey-Has :
    (r x : ShardRow) (rows : List ShardRow) → NoKey x rows → Has r rows → row_key x ≢ row_key r
NoKey-Has r x [] h m = absurd m
NoKey-Has r x (y ∷ rows) (h, hs) (inl e) = λ same. h (same ∙ ap row_key e)
NoKey-Has r x (y ∷ rows) (h, hs) (inr m) = NoKey-Has r x rows hs m

pub same_row :
    (r r' : ShardRow) (rows : List ShardRow)
    → KeysDistinct rows
    → Has r rows
    → Has r' rows
    → row_key r ≡ row_key r'
    → r ≡ r'
same_row r r' [] h m m' e = absurd m
same_row r r' (x ∷ rows) (h, hs) (inl a) (inl b) e = a ∙ sym b
same_row r r' (x ∷ rows) (h, hs) (inl a) (inr b) e =
    absurd (NoKey-Has r' x rows h b (sym (ap row_key a) ∙ e))
same_row r r' (x ∷ rows) (h, hs) (inr a) (inl b) e =
    absurd (NoKey-Has r x rows h a (sym (ap row_key b) ∙ sym e))
same_row r r' (x ∷ rows) (h, hs) (inr a) (inr b) e = same_row r r' rows hs a b e

Has-weaken :
    (x : ShardRow) (rows ys : List ShardRow)
    → All (λ r. Has r rows) ys
    → All (λ r. Has r (x ∷ rows)) ys
Has-weaken x rows [] h = tt
Has-weaken x rows (y ∷ ys) (h, hs) = (inr h, Has-weaken x rows ys hs)

pub All-Has :
    (P : ShardRow → Type 0) (r : ShardRow) (rows : List ShardRow) → Has r rows → All P rows → P r
All-Has P r [] m h = absurd m
All-Has P r (x ∷ rows) (inl e) (h, hs) = subst P (sym e) h
All-Has P r (x ∷ rows) (inr m) (h, hs) = All-Has P r rows m hs

pub Has-all : (rows : List ShardRow) → All (λ r. Has r rows) rows
Has-all [] = tt
Has-all (x ∷ rows) = (inl refl, Has-weaken x rows rows (Has-all rows))

where_rows-All :
    (P : ShardRow → Type 0) (test : ShardRow → Bool) (rows : List ShardRow)
    → All P rows
    → All (λ r. P r × (test r ≡ true)) (where_rows test rows)
unfolding where_rows
where_rows-All P test [] h = tt
where_rows-All P test (r ∷ rows) (h, hs) = elim (Bool-cases (test r)) [
  | inl e ↦ rw e ((h, e), where_rows-All P test rows hs)
  | inr e ↦ rw e (where_rows-All P test rows hs)
]

head-All :
    (P : ShardRow → Type 0) (rows : List ShardRow) (r : ShardRow)
    → All P rows
    → first_row rows ≡ some r
    → P r
head-All P [] r h e = absurd (ground arith)
head-All P (x ∷ rows) r (h, hs) e = subst P (some_eq e) h

-- What a claim picks is a row of the table that is claimable and not held.
pub next_row_sound :
    (locked : ShardRow → Bool) (caps : List Text) (pin : Option Text) (rows : List ShardRow)
    (r : ShardRow)
    → next_row locked caps pin rows ≡ some r
    → Has r rows × ((is_claimable caps pin r ≡ true) × (locked r ≡ false))
unfolding next_row
next_row_sound locked caps pin rows r e =
    let test = λ (x : ShardRow). is_claimable caps pin x && not (locked x) in
    let P = λ (x : ShardRow). Has x rows × (test x ≡ true) in
    let (m, h) =
      head-All P (sort_by row_key (where_rows test rows)) r
        (sort_by-All row_key P (where_rows test rows)
          (where_rows-All (λ x. Has x rows) test rows (Has-all rows)))
        e in
    let (a, b) = &&-true (is_claimable caps pin r) (not (locked r)) h in (m, (a, ground arith))

NoKey-count :
    (job_id : Text) (seed : ℕ) (w : Text) (r : ShardRow) (rows : List ShardRow)
    → has_key job_id seed r ≡ true
    → NoKey r rows
    → count (holds job_id seed w) rows ≡ 0
unfolding count holds
NoKey-count job_id seed w r [] h hs = refl
NoKey-count job_id seed w r (x ∷ rows) h (ne, hs) =
    let rest = NoKey-count job_id seed w r rows h hs in
    elim (Bool-cases (has_key job_id seed x)) [
      | inl e ↦
          absurd (ne (sym ((has_key_iff job_id seed r).0 h) ∙ (has_key_iff job_id seed x).0 e))
      | inr e ↦ ground (arith, e, rest)
    ]

-- An update of a held shard hits one row, or none when no row of the table is held.
pub holds-count :
    (job_id : Text) (seed : ℕ) (w : Text) (rows : List ShardRow)
    → KeysDistinct rows
    → ((count (holds job_id seed w) rows == 1) ≡ true)
      ↔ ((r : ShardRow) × (Has r rows × (holds job_id seed w r ≡ true)))
unfolding count holds
holds-count job_id seed w [] d = ((λ h. absurd (ground arith)), λ (r, (m, _)). absurd m)
holds-count job_id seed w (x ∷ rows) (n, d) =
    let (to, from) = holds-count job_id seed w rows d in
    elim (Bool-cases (holds job_id seed w x)) [
      | inl e ↦
          let key =
            (&&-true (has_key job_id seed x) (is_claimed_by w x)
              (&&-true (has_key job_id seed x && is_claimed_by w x) (is_running x.state) e).0).0 in
          let none = NoKey-count job_id seed w x rows key n in
          ((λ _. (x, (inl refl, e))), λ _. ground (arith, e, none))
      | inr e ↦ (
        (λ h. let (r, (m, k)) = to (ground (arith, e, h)) in (r, (inr m, k))),
        λ (r, (m, k)). elim m [
          | inl same ↦ let b = sym k ∙ (ap (holds job_id seed w) same ∙ e) in absurd (ground arith)
          | inr m' ↦ ground (arith, e, from (r, (m', k)))
        ],
      )
    ]
