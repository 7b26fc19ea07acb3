-- ===== src/Ingest/Cohorts/Anonymity.antt =====
-- Discriminators of src/ingest/cohorts.rs describe a group, never an individual.
use reproit_cloud.Ingest.Cohorts.{
  after, judge, Counts, count_value, value_counts, value_at, Context, Floats, k_anon, counted,
  judge_values, Ranked, push_some, kept, place, Discriminator, discriminators, sort_ranked,
  judge_keys, reported, all_keys,
}
use reproit_cloud.Text.Compare.{text_eq_iff, text_eq_self}
use reproit_cloud.Prelude.{
  ltb, leb, if◌then◌else◌, lt→ltb, leb→le, Bool-cases, &&-true, All, length, ℕ, suc, ◌+◌, ◌≤◌, ◌<◌,
  ◌≡◌, refl, sym, ap, subst, inl, inr, Bool, true, false, ◌&&◌, Option, none, some, List, [], ◌∷◌,
  ◌++◌, arith,
}
use reproit_cloud.Text.{Text, text_eq, text_lt}

-- Whether a member of the cohort has the value at the key.
abbrev renders : {V : Type 0} → (V → Text) → Text → Option V → Bool
renders render value none = false
renders render value (some v) = text_eq (render v) value

-- The members of a cohort that share a value.
unfoldable pub sharers : {V : Type 0} → (V → Text) → Text → Text → List (Context V) → ℕ
unfolding value_at
sharers render key value [] = 0
sharers {V} render key value (r ∷ rows) =
    let n = sharers render key value rows in
    if renders render value (value_at V key r) then suc n else n

abbrev AtMost : (Text → ℕ) → Counts → Type 0
AtMost f = All (λ c. c.1 ≤ f c.0)

weaken-AtMost :
    (f g : Text → ℕ)
    → ((v : Text) → f v ≤ g v)
    → (counts : Counts) → AtMost f counts
    → AtMost g counts
weaken-AtMost f g le [] h = tt
weaken-AtMost f g le ((v, n) ∷ counts) (h, hs) =
    (omega (arith, h, le v), weaken-AtMost f g le counts hs)

count_value-AtMost :
    (f g : Text → ℕ) (value : Text)
    → ((v : Text) → f v ≤ g v)
    → suc (f value) ≤ g value
    → (counts : Counts) → AtMost f counts
    → AtMost g (count_value value counts)
unfolding count_value
count_value-AtMost f g value le lt [] h = (omega (arith, lt), tt)
count_value-AtMost f g value le lt ((v, n) ∷ counts) (h, hs) =
    let rest = weaken-AtMost f g le counts hs in
    let here = weaken-AtMost f g le ((v, n) ∷ counts) (h, hs) in
    elim (Bool-cases (text_lt value v)) [
      | inl e ↦ rw e (omega (arith, lt), here)
      | inr e ↦ elim (Bool-cases (text_eq value v)) [
        | inl k ↦
            let same = (text_eq_iff value v).0 k in
            let alike = ap f same in
            let target = ap g same in rw e (rw k (omega (arith, h, alike, target, lt), rest))
        | inr k ↦ rw e (rw k (here.0, count_value-AtMost f g value le lt counts hs))
      ]
    ]

abbrev bit : Bool → ℕ
bit true = 1
bit false = 0

counted-AtMost :
    {V : Type 0} (render : V → Text) (f : Text → ℕ) (o : Option V) (counts : Counts)
    → AtMost f counts
    → AtMost (λ v. f v + bit (renders render v o)) (counted render o counts)
counted-AtMost render f none counts h = weaken-AtMost f (λ v. f v + 0) (λ v. omega arith) counts h
counted-AtMost render f (some x) counts h =
    count_value-AtMost f (λ v. f v + bit (text_eq (render x) v)) (render x) (λ v. omega arith)
      (let one = ap bit (text_eq_self (render x)) in omega (arith, one)) counts h

value_counts-AtMost :
    {V : Type 0} (render : V → Text) (key : Text) (f : Text → ℕ) (counts : Counts)
    (rows : List (Context V))
    → AtMost f counts
    → AtMost (λ v. f v + sharers render key v rows) (value_counts render key counts rows)
unfolding value_counts sharers
value_counts-AtMost render key f counts [] h =
    weaken-AtMost f (λ v. f v + 0) (λ v. omega arith) counts h
value_counts-AtMost {V} render key f counts (r ∷ rows) h =
    let o = value_at V key r in
    weaken-AtMost (λ v. f v + bit (renders render v o) + sharers render key v rows)
      (λ v. f v + sharers render key v (r ∷ rows))
      (λ v. one_more (f v) (sharers render key v rows) (renders render v o))
      (value_counts render key (counted render o counts) rows)
      (value_counts-AtMost render key (λ v. f v + bit (renders render v o))
        (counted render o counts) rows (counted-AtMost render f o counts h))
  where
    one_more : (a n : ℕ) (b : Bool) → a + bit b + n ≤ a + (if b then suc n else n)
    one_more a n true = omega arith
    one_more a n false = omega arith

-- What is ranked is shared by enough members.
abbrev IsGroup : {V : Type 0} → (N : Floats) → (V → Text) → List (Context V) → Ranked N → Type 0
IsGroup N render cohort r = k_anon ≤ sharers render r.1.1.key r.1.1.value cohort

enough : (n m : ℕ) (a : Bool) → n ≤ m → (a && leb k_anon n) ≡ true → k_anon ≤ m
enough n m a h t =
    let five = leb→le k_anon n (&&-true a (leb k_anon n) t).1 in omega (arith, h, five)

judge_values-IsGroup :
    {V : Type 0} (N : Floats) (render : V → Text) (cohort : List (Context V)) (cohort_n base_n : ℕ)
    (key : Text) (counts base : Counts)
    → AtMost (λ v. sharers render key v cohort) counts
    → All (IsGroup N render cohort) (judge_values N cohort_n base_n key counts base)
unfolding judge_values judge
judge_values-IsGroup N render cohort cohort_n base_n key [] base h = tt
judge_values-IsGroup N render cohort cohort_n base_n key ((v, n) ∷ counts) base (h, hs) =
    kept_group _ _ _ (enough n (sharers render key v cohort) _ h)
      (judge_values-IsGroup N render cohort cohort_n base_n key counts base hs)
  where
    kept_group :
        (t : Bool) (r : Ranked N) (out : List (Ranked N))
        → (t ≡ true → IsGroup N render cohort r)
        → All (IsGroup N render cohort) out
        → All (IsGroup N render cohort) (push_some N (kept N t r) out)
    kept_group true r out g hs = (g refl, hs)
    kept_group false r out g hs = hs

All-append : {A : Type 0} (P : A → Type 0) (xs ys : List A) → All P xs → All P ys → All P (xs ++ ys)
All-append P [] ys h k = k
All-append P (x ∷ xs) ys (h, hs) k = (h, All-append P xs ys hs k)

judge_keys-IsGroup :
    {V : Type 0} (N : Floats) (render : V → Text) (cohort baseline : List (Context V))
    (keys : List Text)
    → All (IsGroup N render cohort) (judge_keys N render cohort baseline keys)
unfolding judge_keys
judge_keys-IsGroup N render cohort baseline [] = tt
judge_keys-IsGroup N render cohort baseline (key ∷ keys) =
    All-append (IsGroup N render cohort) _ _
      (judge_values-IsGroup N render cohort (length cohort) (length baseline) key
        (value_counts render key [] cohort) (value_counts render key [] baseline)
        (weaken-AtMost (λ v. 0 + sharers render key v cohort) (λ v. sharers render key v cohort)
          (λ v. omega arith) (value_counts render key [] cohort)
          (value_counts-AtMost render key (λ _. 0) [] cohort tt)))
      (judge_keys-IsGroup N render cohort baseline keys)

place-All :
    (N : Floats) (P : Ranked N → Type 0) (a : Ranked N) (out : List (Ranked N))
    → P a
    → All P out
    → All P (place N a out)
unfolding place
place-All N P a [] p h = (p, tt)
place-All N P a (b ∷ out) p (h, hs) = elim (Bool-cases (after N a b)) [
  | inl e ↦
      subst (λ t. All P (if t then b ∷ place N a out else a ∷ b ∷ out)) (sym e)
        (h, place-All N P a out p hs)
  | inr e ↦ subst (λ t. All P (if t then b ∷ place N a out else a ∷ b ∷ out)) (sym e) (p, (h, hs))
]

sort_ranked-All :
    (N : Floats) (P : Ranked N → Type 0) (out : List (Ranked N))
    → All P out
    → All P (sort_ranked N out)
unfolding sort_ranked
sort_ranked-All N P [] h = tt
sort_ranked-All N P (a ∷ out) (h, hs) =
    place-All N P a (sort_ranked N out) h (sort_ranked-All N P out hs)

reported-All :
    (N : Floats) (P : Discriminator N → Type 0) (out : List (Ranked N))
    → All (λ r. P r.1.1) out
    → All P (reported N out)
reported-All N P [] h = tt
reported-All N P (r ∷ out) (h, hs) = (h, reported-All N P out hs)

-- Each discriminator that is reported names a value that at least five members of the cohort share,
-- whatever the arithmetic of floating-point numbers makes of shares and lifts; a cohort of fewer than
-- five reports none.
pub discriminators_anonymous :
    {V : Type 0} (N : Floats) (render : V → Text) (cohort baseline : List (Context V))
    → All
        (λ d. k_anon ≤ sharers render d.key d.value cohort)
        (discriminators N render cohort baseline)
      × (length cohort < k_anon → discriminators N render cohort baseline ≡ [])
unfolding discriminators
discriminators_anonymous N render cohort baseline =
    let ranked = judge_keys N render cohort baseline (all_keys cohort []) in
    let shared =
      reported-All N (λ d. k_anon ≤ sharers render d.key d.value cohort) (sort_ranked N ranked)
        (sort_ranked-All N (IsGroup N render cohort) ranked
          (judge_keys-IsGroup N render cohort baseline (all_keys cohort []))) in
    (
      elim (Bool-cases (ltb (length cohort) k_anon)) [
        | inl e ↦
            subst
              (λ t.
                All (λ d. k_anon ≤ sharers render d.key d.value cohort)
                  (if t then [] else reported N (sort_ranked N ranked)))
              (sym e) tt
        | inr e ↦
            subst
              (λ t.
                All (λ d. k_anon ≤ sharers render d.key d.value cohort)
                  (if t then [] else reported N (sort_ranked N ranked)))
              (sym e) shared
      ],
      λ small.
          ap (λ t. if t then [] else reported N (sort_ranked N ranked))
            (lt→ltb (length cohort) k_anon small),
    )
