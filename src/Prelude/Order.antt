-- ===== src/Prelude/Order.antt =====
-- Total orders as an interface, and what the source uses of the standard library over them:
-- `sort`, `dedup`, and a `BTreeSet` as a strictly sorted list.
pub mod Canonical
pub mod Distinct
pub mod SortBy
use Prim.Native.Nat.{ℕ, ◌<◌, ◌≤◌}
use mathlib.Core.Path.{◌≡◌, ap}
use mathlib.Core.Logic.{◌↔◌}
use mathlib.Core.Bool.{Bool, true, false, ◌&&◌, ◌||◌}
use mathlib.Core.List.{List, [], ◌∷◌}
use native.Mathlib.Omega.{arith}
use reproit_cloud.Prelude.Tests.{==_iff, if◌then◌else◌, ltb, ◌==◌}

pub record Ord (A : Type 0) : Type 0 where
  pub lt : A → A → Bool
  pub eq : A → A → Bool
  pub eq_iff : (a b : A) → (eq a b ≡ true) ↔ (a ≡ b)
  pub lt_irrefl : (a : A) → lt a a ≡ false
  pub lt_trans : (a b c : A) → lt a b ≡ true → lt b c ≡ true → lt a c ≡ true
  pub lt_total : (a b : A) → lt a b ≡ false → lt b a ≡ false → a ≡ b

pub ltb_irrefl : (a : ℕ) → ltb a a ≡ false
ltb_irrefl a = ground arith

pub ltb_trans : (a b c : ℕ) → ltb a b ≡ true → ltb b c ≡ true → ltb a c ≡ true
ltb_trans a b c h k = ground arith

pub ltb_total : (a b : ℕ) → ltb a b ≡ false → ltb b a ≡ false → a ≡ b
ltb_total a b h k = ground arith

pub rank_eq_iff :
    {A : Type 0} (rank : A → ℕ) (injective : (a b : A) → rank a ≡ rank b → a ≡ b) (a b : A)
    → ((rank a == rank b) ≡ true) ↔ (a ≡ b)
rank_eq_iff rank injective a b =
    ((λ h. injective a b ((==_iff _ _).0 h)), (λ h. (==_iff _ _).1 (ap rank h)))

-- The derived order of an enum without fields: the order of its declaration.
abbrev pub ord_of_rank : {A : Type 0} (rank : A → ℕ) → ((a b : A) → rank a ≡ rank b → a ≡ b) → Ord A
ord_of_rank rank injective = record {
  lt = λ a b. ltb (rank a) (rank b);
  eq = λ a b. rank a == rank b;
  eq_iff = rank_eq_iff rank injective;
  lt_irrefl = λ a. ltb_irrefl (rank a);
  lt_trans = λ a b c. ltb_trans (rank a) (rank b) (rank c);
  lt_total = λ a b h k. injective a b (ltb_total (rank a) (rank b) h k);
}

module _ {A : Type 0} ⦃o : Ord A⦄ where
  -- `set.contains(a)`, and `slice.contains(a)`
  unfoldable pub contains : List A → A → Bool
  contains [] a = false
  contains (x ∷ xs) a = o.eq x a || contains xs a

  -- `set.insert(a)`; whether it was new is `not (contains set a)`.
  unfoldable pub set_insert : A → List A → List A
  set_insert a [] = a ∷ []
  set_insert a (x ∷ xs) =
      let after = x ∷ set_insert a xs in
      if o.lt a x then a ∷ x ∷ xs else if o.eq x a then x ∷ xs else after

  unfoldable pub insert_sorted : A → List A → List A
  insert_sorted a [] = a ∷ []
  insert_sorted a (x ∷ xs) =
      let after = x ∷ insert_sorted a xs in if o.lt x a then after else a ∷ x ∷ xs

  unfoldable pub sort : List A → List A
  unfolding insert_sorted
  sort [] = []
  sort (x ∷ xs) = insert_sorted x (sort xs)

  unfoldable pub dedup_from : A → List A → List A
  dedup_from x [] = x ∷ []
  dedup_from x (y ∷ ys) =
      let drops = dedup_from x ys in
      let keeps = x ∷ dedup_from y ys in if o.eq x y then drops else keeps

  unfoldable pub dedup : List A → List A
  unfolding dedup_from
  dedup [] = []
  dedup (x ∷ xs) = dedup_from x xs

  -- `values.windows(2).all(|pair| pair[0] < pair[1])` after a first value
  unfoldable pub sorted_from : A → List A → Bool
  sorted_from x [] = true
  sorted_from x (y ∷ ys) = o.lt x y && sorted_from y ys

  unfoldable pub is_strictly_sorted : List A → Bool
  unfolding sorted_from
  is_strictly_sorted [] = true
  is_strictly_sorted (x ∷ xs) = sorted_from x xs

  -- Two lists with the same members, whatever their order and repetitions.
  abbrev pub SameMembers : List A → List A → Type 0
  SameMembers xs ys = (a : A) → contains xs a ≡ contains ys a

-- An order through an injection, and the lexicographic order of pairs.
module _ {A B : Type 0} where
  pub image_eq_iff :
      (o : Ord B) (f : A → B) (injective : (a b : A) → f a ≡ f b → a ≡ b) (a b : A)
      → (o.eq (f a) (f b) ≡ true) ↔ (a ≡ b)
  image_eq_iff o f injective a b =
      ((λ h. injective a b ((o.eq_iff _ _).0 h)), (λ h. (o.eq_iff _ _).1 (ap f h)))

  abbrev pub ord_of_image : (o : Ord B) (f : A → B) → ((a b : A) → f a ≡ f b → a ≡ b) → Ord A
  ord_of_image o f injective = record {
    lt = λ a b. o.lt (f a) (f b);
    eq = λ a b. o.eq (f a) (f b);
    eq_iff = image_eq_iff o f injective;
    lt_irrefl = λ a. o.lt_irrefl (f a);
    lt_trans = λ a b c. o.lt_trans (f a) (f b) (f c);
    lt_total = λ a b h k. injective a b (o.lt_total (f a) (f b) h k);
  }

module _ {A B : Type 0} (o : Ord A) (p : Ord B) where
  abbrev pub pair_lt : A × B → A × B → Bool
  pair_lt x y = o.lt x.0 y.0 || (o.eq x.0 y.0 && p.lt x.1 y.1)

  abbrev pub pair_eq : A × B → A × B → Bool
  pair_eq x y = o.eq x.0 y.0 && p.eq x.1 y.1

  pub pair_eq_iff : (x y : A × B) → (pair_eq x y ≡ true) ↔ (x ≡ y)
  pair_eq_iff x y = ground (arith, o.eq_iff x.0 y.0, p.eq_iff x.1 y.1)

  pub pair_lt_irrefl : (x : A × B) → pair_lt x x ≡ false
  pair_lt_irrefl x = ground (arith, o.lt_irrefl x.0, p.lt_irrefl x.1)

  pub pair_lt_trans : (x y z : A × B) → pair_lt x y ≡ true → pair_lt y z ≡ true → pair_lt x z ≡ true
  pair_lt_trans x y z h k = ground (
    arith,
    o.lt_trans x.0 y.0 z.0,
    p.lt_trans x.1 y.1 z.1,
    o.eq_iff x.0 y.0,
    o.eq_iff y.0 z.0,
    o.eq_iff x.0 z.0,
  )

  pub pair_lt_total : (x y : A × B) → pair_lt x y ≡ false → pair_lt y x ≡ false → x ≡ y
  pair_lt_total x y h k =
      ground (arith, o.lt_total x.0 y.0, p.lt_total x.1 y.1, o.eq_iff x.0 y.0, o.eq_iff y.0 x.0)

  abbrev pub ord_pair : Ord (A × B)
  ord_pair = record {
    lt = pair_lt;
    eq = pair_eq;
    eq_iff = pair_eq_iff;
    lt_irrefl = pair_lt_irrefl;
    lt_trans = pair_lt_trans;
    lt_total = pair_lt_total;
  }
