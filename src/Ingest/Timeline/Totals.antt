-- ===== src/Ingest/Timeline/Totals.antt =====
-- The totals and the cells of a timeline count the same occurrences.
use reproit_cloud.Ingest.Timeline.{
  add_all, window_of, timeline_weighted, add_count, or_unknown, at_least_one, Cell, no_timeline,
  cell_ord, Timeline, Occurrence,
}
use reproit_cloud.Prelude.{
  if◌then◌else◌, Bool-cases, ℕ, ◌+◌, ◌%◌, ◌^◌, ◌<◌, ◌≡◌, ap, inl, inr, Bool, true, false, Option,
  List, [], ◌∷◌, arith,
}
use reproit_cloud.Prelude.Int.{ℤ, int_ord}
use reproit_cloud.Prelude.Order.{Ord}
use reproit_cloud.Text.{Text}

-- The counts of the keys that pass a test.
unfoldable pub sum_where : {K : Type 0} → (K → Bool) → List (K × ℕ) → ℕ
sum_where test [] = 0
sum_where test ((k, n) ∷ counts) =
    let rest = sum_where test counts in if test k then n + rest else rest

abbrev pub weight : Bool → ℕ → ℕ
weight true n = n
weight false n = 0

sum_if : (b : Bool) (n r : ℕ) → (if b then n + r else r) ≡ weight b n + r
sum_if b n r = ground arith

sum_cons :
    {K : Type 0} (test : K → Bool) (k : K) (n : ℕ) (counts : List (K × ℕ))
    → sum_where test ((k, n) ∷ counts) ≡ weight (test k) n + sum_where test counts
unfolding sum_where
sum_cons test k n counts = sum_if (test k) n (sum_where test counts)

weight_add : (b : Bool) (m n : ℕ) → weight b (m + n) ≡ weight b m + weight b n
weight_add b m n = ground arith

-- The test that every key passes.
abbrev pub every : {K : Type 0} → K → Bool
every _ = true

-- The sum of all the counts of the occurrences.
abbrev pub all_counts : List Occurrence → ℕ
all_counts [] = 0
all_counts (occ ∷ occurrences) = occ.count + all_counts occurrences

add_count-sum :
    {K : Type 0} ⦃o : Ord K⦄ (test : K → Bool) (key : K) (count : ℕ) (counts : List (K × ℕ))
    → sum_where every counts + count < 2 ^ 64
    → sum_where test (add_count key count counts) ≡ weight (test key) count + sum_where test counts
unfolding add_count
add_count-sum test key count [] h = sum_cons test key count []
add_count-sum ⦃o⦄ test key count ((k, n) ∷ counts) h =
    let here = sum_cons test k n counts in
    let bound = sum_cons every k n counts in
    elim (Bool-cases (o.lt key k)) [
      | inl e ↦ rw e (sum_cons test key count ((k, n) ∷ counts))
      | inr e ↦ elim (Bool-cases (o.eq k key)) [
        | inl f ↦
            let same = ap (λ c. weight (test c) count) ((o.eq_iff k key).0 f) in
            let more = sum_cons test k (n + count) counts in
            let split = weight_add (test k) n count in
            let fits : (n + count) % 2 ^ 64 ≡ n + count = omega (arith, bound) in
            rw e (rw f (rw fits (omega (arith, here, same, more, split))))
        | inr f ↦
            let rest = add_count-sum test key count counts (omega (arith, bound)) in
            let there = sum_cons test k n (add_count key count counts) in
            rw e (rw f (omega (arith, here, rest, there)))
      ]
    ]

abbrev pub same_window : ℤ → ℤ → Bool
same_window a b = int_ord.eq a b

-- The occurrences of a window.
unfoldable pub occurred : (Text → Option ℤ) → ℕ → ℤ → List Occurrence → ℕ
unfolding window_of
occurred parse_epoch secs w [] = 0
occurred parse_epoch secs w (occ ∷ occurrences) =
    weight (same_window (window_of parse_epoch secs occ) w) occ.count
    + occurred parse_epoch secs w occurrences

add_all-sums :
    (parse_epoch : Text → Option ℤ) (secs : ℕ) (w : ℤ) (occurrences : List Occurrence)
    (t : Timeline)
    → sum_where every t.total + all_counts occurrences < 2 ^ 64
    → sum_where every t.cells + all_counts occurrences < 2 ^ 64
    → let t' = add_all parse_epoch secs occurrences t in
      (sum_where (λ k. same_window k w) t'.total
        ≡ occurred parse_epoch secs w occurrences + sum_where (λ k. same_window k w) t.total)
      × (sum_where (λ k. same_window k.0 w) t'.cells
          ≡ occurred parse_epoch secs w occurrences + sum_where (λ k. same_window k.0 w) t.cells)
unfolding add_all occurred
add_all-sums parse_epoch secs w [] t g h = (omega arith, omega arith)
add_all-sums parse_epoch secs w (occ ∷ occurrences) t g h =
    let win = window_of parse_epoch secs occ in
    let cell : Cell = (win, or_unknown occ.build) in
    let fits : sum_where every t.total + occ.count < 2 ^ 64 = omega arith in
    let fits' : sum_where every t.cells + occ.count < 2 ^ 64 = omega arith in
    let grown = add_count-sum every win occ.count t.total fits in
    let grown' = add_count-sum every cell occ.count t.cells fits' in
    let (a, b) =
      add_all-sums parse_epoch secs w occurrences
        (record {
          cells = add_count (win, or_unknown occ.build) occ.count t.cells;
          total = add_count win occ.count t.total;
        })
        (omega (arith, grown)) (omega (arith, grown')) in
    let c = add_count-sum (λ k. same_window k w) win occ.count t.total fits in
    let d = add_count-sum (λ (k : Cell). same_window k.0 w) cell occ.count t.cells fits' in
    (omega (arith, a, c), omega (arith, b, d))

-- Where all counts together fit a `u64`, the total of a window is the sum of its cells over the builds,
-- and both are the sum of the counts of the occurrences that fall into it: none is dropped, with or
-- without a build or a readable time.
pub timeline_totals :
    (parse_epoch : Text → Option ℤ) (occurrences : List Occurrence) (window_secs w : ℤ)
    → all_counts occurrences < 2 ^ 64
    → let t = timeline_weighted parse_epoch occurrences window_secs in
      let n = occurred parse_epoch (at_least_one window_secs) w occurrences in
      (sum_where (λ k. same_window k w) t.total ≡ n)
      × (sum_where (λ (k : Cell). same_window k.0 w) t.cells ≡ n)
unfolding timeline_weighted sum_where
timeline_totals parse_epoch occurrences window_secs w h =
    let (a, b) =
      add_all-sums parse_epoch (at_least_one window_secs) w occurrences no_timeline (omega arith)
        (omega arith) in
    (omega (arith, a), omega (arith, b))
