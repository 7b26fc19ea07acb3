-- ===== src/Prelude/Order/Distinct.antt =====
-- A loop that refuses a value which is already in the set, and then inserts it.
use mathlib.Core.Path.{◌≡◌, refl}
use mathlib.Core.Logic.{◌↔◌}
use mathlib.Core.Bool.{false}
use mathlib.Core.List.{List, [], ◌∷◌}
use native.Mathlib.Omega.{arith}
use reproit_cloud.Prelude.Results.{All}
use reproit_cloud.Prelude.Order.{Ord, contains, set_insert}
use reproit_cloud.Prelude.Order.Canonical.{contains-set_insert}

module _ {A : Type 0} ⦃o : Ord A⦄ where
  -- No value occurs twice.
  abbrev pub Distinct : List A → Type 0
  Distinct [] = Unit {0}
  Distinct (x ∷ xs) = (contains xs x ≡ false) × Distinct xs

  -- No value was seen before, in the set or in the list.
  abbrev pub FreshFrom : List A → List A → Type 0
  FreshFrom seen [] = Unit {0}
  FreshFrom seen (x ∷ xs) = (contains seen x ≡ false) × FreshFrom (set_insert x seen) xs

  abbrev Unseen : List A → List A → Type 0
  Unseen seen = All (λ y. contains seen y ≡ false)

  eq_symm : (a b : A) → o.eq a b ≡ o.eq b a
  eq_symm a b = ground (arith, o.eq_iff a b, o.eq_iff b a)

  Unseen-set_insert :
      (x : A) (seen xs : List A)
      → Unseen (set_insert x seen) xs ↔ ((contains xs x ≡ false) × Unseen seen xs)
  unfolding contains
  Unseen-set_insert x seen [] = ((λ _. (refl, tt)), (λ _. tt))
  Unseen-set_insert x seen (y ∷ ys) =
      let (to, from) = Unseen-set_insert x seen ys in
      let at = contains-set_insert x seen y in
      let other = eq_symm x y in
      (
        (λ (h, hs). (ground (arith, (to hs).0), (ground arith, (to hs).1))),
        (λ (h, (k, ks)). (ground arith, from (ground arith, ks))),
      )

  pub FreshFrom-iff : (seen xs : List A) → FreshFrom seen xs ↔ (Distinct xs × Unseen seen xs)
  FreshFrom-iff seen [] = ((λ _. (tt, tt)), (λ _. tt))
  FreshFrom-iff seen (x ∷ xs) =
      let (to, from) = FreshFrom-iff (set_insert x seen) xs in
      let (split, merge) = Unseen-set_insert x seen xs in
      (
        (λ (h, hs). (((split (to hs).1).0, (to hs).0), (h, (split (to hs).1).1))),
        (λ ((c, d), (h, u)). (h, from (d, merge (c, u)))),
      )

  Unseen-nil : (xs : List A) → Unseen [] xs
  unfolding contains
  Unseen-nil [] = tt
  Unseen-nil (x ∷ xs) = (refl, Unseen-nil xs)

  pub FreshFrom-nil_iff : (xs : List A) → FreshFrom [] xs ↔ Distinct xs
  FreshFrom-nil_iff xs =
      let (to, from) = FreshFrom-iff [] xs in ((λ h. (to h).0), (λ d. from (d, Unseen-nil xs)))
