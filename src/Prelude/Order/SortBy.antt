-- ===== src/Prelude/Order/SortBy.antt =====
-- `slice::sort_by` at a key: a stable insertion sort.
use mathlib.Core.List.{Perm, List, [], ◌∷◌}
use mathlib.Core.List.Perm
use reproit_cloud.Prelude.Tests.{if◌then◌else◌, Bool-cases}
use reproit_cloud.Prelude.Results.{All}
use reproit_cloud.Prelude.Order.{Ord}
use mathlib.Core.Path.{◌≡◌, subst}
use mathlib.Core.Logic.{inl, inr}
use mathlib.Core.Bool.{true, false}
use native.Mathlib.Omega.{arith}

module _ {A B : Type 0} ⦃o : Ord B⦄ (key : A → B) where
  unfoldable pub insert_by : A → List A → List A
  insert_by a [] = a ∷ []
  insert_by a (x ∷ xs) =
      let after = x ∷ insert_by a xs in if o.lt (key x) (key a) then after else a ∷ x ∷ xs

  unfoldable pub sort_by : List A → List A
  unfolding insert_by
  sort_by [] = []
  sort_by (x ∷ xs) = insert_by x (sort_by xs)

  -- No later element has a smaller key.
  abbrev pub NotBelow : A → List A → Type 0
  NotBelow a = All (λ x. o.lt (key x) (key a) ≡ false)

  abbrev pub IsSortedBy : List A → Type 0
  IsSortedBy [] = Unit {0}
  IsSortedBy (x ∷ xs) = NotBelow x xs × IsSortedBy xs

  -- `x ≤ a` and `a ≤ y` give `x ≤ y`.
  not_below_trans :
      (x a y : A)
      → o.lt (key a) (key x) ≡ false
      → o.lt (key y) (key a) ≡ false
      → o.lt (key y) (key x) ≡ false
  not_below_trans x a y h k = elim (Bool-cases (o.lt (key y) (key x))) [
    | inr e ↦ e
    | inl e ↦ elim (Bool-cases (o.lt (key x) (key a))) [
      | inl f ↦ absurd (ground (arith, o.lt_trans (key y) (key x) (key a) e f))
      | inr f ↦ let same = o.lt_total (key x) (key a) f h in absurd (ground (arith, same))
    ]
  ]

  NotBelow-trans :
      (x a : A) (ys : List A) → o.lt (key a) (key x) ≡ false → NotBelow a ys → NotBelow x ys
  NotBelow-trans x a [] h hs = tt
  NotBelow-trans x a (y ∷ ys) h (k, ks) = (not_below_trans x a y h k, NotBelow-trans x a ys h ks)

  NotBelow-insert_by :
      (x a : A) (ys : List A)
      → o.lt (key a) (key x) ≡ false
      → NotBelow x ys
      → NotBelow x (insert_by a ys)
  unfolding insert_by
  NotBelow-insert_by x a [] h hs = (h, tt)
  NotBelow-insert_by x a (y ∷ ys) h (k, ks) = elim (Bool-cases (o.lt (key y) (key a))) [
    | inl e ↦ rw e (k, NotBelow-insert_by x a ys h ks)
    | inr e ↦ rw e (h, (k, ks))
  ]

  below_asymm : (x y : A) → o.lt (key x) (key y) ≡ true → o.lt (key y) (key x) ≡ false
  below_asymm x y h = ground (arith, o.lt_trans (key x) (key y) (key x) h, o.lt_irrefl (key x))

  insert_by-IsSortedBy : (a : A) (xs : List A) → IsSortedBy xs → IsSortedBy (insert_by a xs)
  unfolding insert_by
  insert_by-IsSortedBy a [] s = (tt, tt)
  insert_by-IsSortedBy a (x ∷ xs) (n, s) = elim (Bool-cases (o.lt (key x) (key a))) [
    | inl e ↦ rw e (NotBelow-insert_by x a xs (below_asymm x a e) n, insert_by-IsSortedBy a xs s)
    | inr e ↦ rw e ((e, NotBelow-trans a x xs e n), (n, s))
  ]

  pub sort_by-IsSortedBy : (xs : List A) → IsSortedBy (sort_by xs)
  unfolding sort_by
  sort_by-IsSortedBy [] = tt
  sort_by-IsSortedBy (x ∷ xs) = insert_by-IsSortedBy x (sort_by xs) (sort_by-IsSortedBy xs)

  insert_by-perm : (a : A) (xs : List A) → Perm (insert_by a xs) (a ∷ xs)
  unfolding insert_by
  insert_by-perm a [] = Perm.refl (a ∷ [])
  insert_by-perm a (x ∷ xs) = elim (Bool-cases (o.lt (key x) (key a))) [
    | inl e ↦ rw e (Perm.trans (Perm.cons x (insert_by-perm a xs)) (Perm.swap a x xs))
    | inr e ↦ rw e (Perm.refl (a ∷ x ∷ xs))
  ]

  pub sort_by-perm : (xs : List A) → Perm (sort_by xs) xs
  unfolding sort_by
  sort_by-perm [] = Perm.refl []
  sort_by-perm (x ∷ xs) = Perm.trans (insert_by-perm x (sort_by xs)) (Perm.cons x (sort_by-perm xs))

  insert_by-All : (P : A → Type 0) (a : A) (xs : List A) → P a → All P xs → All P (insert_by a xs)
  unfolding insert_by
  insert_by-All P a [] p ps = (p, tt)
  insert_by-All P a (x ∷ xs) p (q, ps) = elim (Bool-cases (o.lt (key x) (key a))) [
    | inl e ↦ rw e (q, insert_by-All P a xs p ps)
    | inr e ↦ rw e (p, (q, ps))
  ]

  pub sort_by-All : (P : A → Type 0) (xs : List A) → All P xs → All P (sort_by xs)
  unfolding sort_by
  sort_by-All P [] h = tt
  sort_by-All P (x ∷ xs) (h, hs) = insert_by-All P x (sort_by xs) h (sort_by-All P xs hs)

  all_of_insert_by :
      (P : A → Type 0) (a : A) (xs : List A) → All P (insert_by a xs) → P a × All P xs
  unfolding insert_by
  all_of_insert_by P a [] (p, ps) = (p, tt)
  all_of_insert_by P a (x ∷ xs) h = elim (Bool-cases (o.lt (key x) (key a))) [
    | inl e ↦
        let (p, ps) = subst (λ t. All P (if t then x ∷ insert_by a xs else a ∷ x ∷ xs)) e h in
        let (q, qs) = all_of_insert_by P a xs ps in (q, (p, qs))
    | inr e ↦ subst (λ t. All P (if t then x ∷ insert_by a xs else a ∷ x ∷ xs)) e h
  ]

  pub all_of_sort_by : (P : A → Type 0) (xs : List A) → All P (sort_by xs) → All P xs
  unfolding sort_by
  all_of_sort_by P [] h = tt
  all_of_sort_by P (x ∷ xs) h =
      let (p, ps) = all_of_insert_by P x (sort_by xs) h in (p, all_of_sort_by P xs ps)
