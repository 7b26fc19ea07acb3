-- ===== src/Prelude/Order/Canonical.antt =====
-- `sort` followed by `dedup` gives the one strictly sorted list of the same members.
use mathlib.Core.Path.{◌≡◌, refl, sym, ◌∙◌, ap, ap₂, subst}
use mathlib.Core.Logic.{inl, inr}
use mathlib.Core.Bool.{true, false, ◌||◌}
use mathlib.Core.List.{List, [], ◌∷◌}
use native.Mathlib.Omega.{arith}
use reproit_cloud.Prelude.Tests.{Bool-cases}
use Prim.Native.Nat.{ℕ, ◌+◌, ◌<◌, ◌≤◌}
use reproit_cloud.Prelude.Results.{All}
use reproit_cloud.Prelude.Lists.{length, is_empty}
use reproit_cloud.Prelude.Order.{
  ord_of_rank, Ord, contains, set_insert, insert_sorted, sort, dedup_from, dedup, sorted_from,
  is_strictly_sorted, SameMembers,
}

module _ {A : Type 0} ⦃o : Ord A⦄ where
  eq_self : (a : A) → o.eq a a ≡ true
  eq_self a = (o.eq_iff a a).1 refl

  lt_ne : (a b : A) → o.lt a b ≡ true → o.eq a b ≡ false
  lt_ne a b h = elim (Bool-cases (o.eq a b)) [
    | inl same ↦ absurd (ground (arith, (o.eq_iff a b).0 same, o.lt_irrefl b))
    | inr other ↦ other
  ]

  eq_symm : (a b : A) → o.eq a b ≡ o.eq b a
  eq_symm a b = ground (arith, o.eq_iff a b, o.eq_iff b a)

  pub contains-insert_sorted :
      (a : A) (xs : List A) (b : A) → contains (insert_sorted a xs) b ≡ (o.eq a b || contains xs b)
  unfolding contains insert_sorted
  contains-insert_sorted a [] b = refl
  contains-insert_sorted a (x ∷ xs) b = ground (arith, contains-insert_sorted a xs b)

  pub contains-set_insert :
      (a : A) (xs : List A) (b : A) → contains (set_insert a xs) b ≡ (o.eq a b || contains xs b)
  unfolding contains set_insert
  contains-set_insert a [] b = refl
  contains-set_insert a (x ∷ xs) b = ground (arith, contains-set_insert a xs b, o.eq_iff x a)

  pub contains-sort : (xs : List A) (b : A) → contains (sort xs) b ≡ contains xs b
  unfolding sort contains
  contains-sort [] b = refl
  contains-sort (x ∷ xs) b =
      contains-insert_sorted x (sort xs) b ∙ ap (◌||◌ (o.eq x b)) (contains-sort xs b)

  contains-dedup_from :
      (x : A) (ys : List A) (b : A) → contains (dedup_from x ys) b ≡ (o.eq x b || contains ys b)
  unfolding contains dedup_from
  contains-dedup_from x [] b = refl
  contains-dedup_from x (y ∷ ys) b =
      ground (arith, contains-dedup_from x ys b, contains-dedup_from y ys b, o.eq_iff x y)

  contains-dedup : (xs : List A) (b : A) → contains (dedup xs) b ≡ contains xs b
  unfolding contains dedup
  contains-dedup [] b = refl
  contains-dedup (x ∷ xs) b = contains-dedup_from x xs b

  -- Every element of the list is at least the bound.
  abbrev AtLeast : A → List A → Type 0
  AtLeast a [] = Unit {0}
  AtLeast a (x ∷ xs) = (o.lt x a ≡ false) × AtLeast x xs

  abbrev IsSorted : List A → Type 0
  IsSorted [] = Unit {0}
  IsSorted (x ∷ xs) = AtLeast x xs

  lt_asymm : (u v : A) → o.lt u v ≡ true → o.lt v u ≡ false
  lt_asymm u v p = ground (arith, o.lt_trans u v u p, o.lt_irrefl u)

  insert_sorted-AtLeast :
      (a b : A) (xs : List A) → o.lt a b ≡ false → AtLeast b xs → AtLeast b (insert_sorted a xs)
  unfolding insert_sorted
  insert_sorted-AtLeast a b [] h s = (h, tt)
  insert_sorted-AtLeast a b (x ∷ xs) h (k, s) = elim (Bool-cases (o.lt x a)) [
    | inl below ↦ rw below (k, insert_sorted-AtLeast a x xs (lt_asymm x a below) s)
    | inr above ↦ rw above (h, (above, s))
  ]

  insert_sorted-IsSorted : (a : A) (xs : List A) → IsSorted xs → IsSorted (insert_sorted a xs)
  unfolding insert_sorted
  insert_sorted-IsSorted a [] s = tt
  insert_sorted-IsSorted a (x ∷ xs) s = elim (Bool-cases (o.lt x a)) [
    | inl below ↦ rw below (insert_sorted-AtLeast a x xs (lt_asymm x a below) s)
    | inr above ↦ rw above (above, s)
  ]

  sort-IsSorted : (xs : List A) → IsSorted (sort xs)
  unfolding sort
  sort-IsSorted [] = tt
  sort-IsSorted (x ∷ xs) = insert_sorted-IsSorted x (sort xs) (sort-IsSorted xs)

  lt_of_ne : (x y : A) → o.lt y x ≡ false → o.eq x y ≡ false → o.lt x y ≡ true
  lt_of_ne x y h k = elim (Bool-cases (o.lt x y)) [
    | inl below ↦ below
    | inr above ↦ absurd (ground (arith, (o.eq_iff x y).1 (o.lt_total x y above h)))
  ]

  sorted_from-dedup_from :
      (b x : A) (ys : List A)
      → o.lt b x ≡ true
      → AtLeast x ys
      → sorted_from b (dedup_from x ys) ≡ true
  unfolding sorted_from dedup_from
  sorted_from-dedup_from b x [] h s = ground arith
  sorted_from-dedup_from b x (y ∷ ys) h (k, s) = elim (Bool-cases (o.eq x y)) [
    | inl same ↦ rw same (sorted_from-dedup_from b x ys h (rw ((o.eq_iff x y).0 same) s))
    | inr other ↦ rw (other, h) (sorted_from-dedup_from x y ys (lt_of_ne x y k other) s)
  ]

  dedup_from-is_strictly_sorted :
      (x : A) (ys : List A) → AtLeast x ys → is_strictly_sorted (dedup_from x ys) ≡ true
  unfolding is_strictly_sorted dedup_from
  dedup_from-is_strictly_sorted x [] s = refl
  dedup_from-is_strictly_sorted x (y ∷ ys) (k, s) = elim (Bool-cases (o.eq x y)) [
    | inl same ↦ rw same (dedup_from-is_strictly_sorted x ys (rw ((o.eq_iff x y).0 same) s))
    | inr other ↦ rw other (sorted_from-dedup_from x y ys (lt_of_ne x y k other) s)
  ]

  dedup-is_strictly_sorted : (xs : List A) → IsSorted xs → is_strictly_sorted (dedup xs) ≡ true
  unfolding dedup is_strictly_sorted
  dedup-is_strictly_sorted [] s = refl
  dedup-is_strictly_sorted (x ∷ xs) s = dedup_from-is_strictly_sorted x xs s

  pub canonical-is_strictly_sorted : (xs : List A) → is_strictly_sorted (dedup (sort xs)) ≡ true
  canonical-is_strictly_sorted xs = dedup-is_strictly_sorted (sort xs) (sort-IsSorted xs)

  pub contains-canonical : (xs : List A) (b : A) → contains (dedup (sort xs)) b ≡ contains xs b
  contains-canonical xs b = contains-dedup (sort xs) b ∙ contains-sort xs b

  contains_below :
      (a x : A) (xs : List A)
      → o.lt a x ≡ true
      → sorted_from x xs ≡ true
      → (o.eq x a ≡ false) × (contains xs a ≡ false)
  unfolding contains sorted_from
  contains_below a x [] h s = (eq_symm x a ∙ lt_ne a x h, refl)
  contains_below a x (y ∷ ys) h s =
      let below = o.lt_trans a x y h (ground arith) in
      let (other, rest) = contains_below a y ys below (ground arith) in
      (eq_symm x a ∙ lt_ne a x h, rw (other, rest))

  -- A strictly sorted list holds its head once.
  contains_head : (x : A) (xs : List A) → sorted_from x xs ≡ true → contains xs x ≡ false
  unfolding contains sorted_from
  contains_head x [] s = refl
  contains_head x (y ∷ ys) s =
      let (other, rest) = contains_below x y ys (ground arith) (ground arith) in rw (other, rest)

  same_tails :
      (x : A) (xs ys : List A)
      → sorted_from x xs ≡ true
      → sorted_from x ys ≡ true
      → SameMembers (x ∷ xs) (x ∷ ys)
      → SameMembers xs ys
  unfolding contains
  same_tails x xs ys s t h a = elim (Bool-cases (o.eq x a)) [
    | inl same ↦ rw (← (o.eq_iff x a).0 same) (contains_head x xs s ∙ sym (contains_head x ys t))
    | inr other ↦ ground (arith, h a)
  ]

  same_heads :
      (x y : A) (xs ys : List A)
      → sorted_from x xs ≡ true
      → sorted_from y ys ≡ true
      → SameMembers (x ∷ xs) (y ∷ ys)
      → x ≡ y
  unfolding contains
  same_heads x y xs ys s t h = elim (Bool-cases (o.lt x y)) [
    | inl below ↦ absurd (ground (arith, contains_below x y ys below t, h x, eq_self x))
    | inr not_below ↦ elim (Bool-cases (o.lt y x)) [
      | inl above ↦ absurd (ground (arith, contains_below y x xs above s, h y, eq_self y))
      | inr not_above ↦ o.lt_total x y not_below not_above
    ]
  ]

  pub strictly_sorted_unique :
      (xs ys : List A)
      → is_strictly_sorted xs ≡ true
      → is_strictly_sorted ys ≡ true
      → SameMembers xs ys
      → xs ≡ ys
  unfolding is_strictly_sorted contains
  strictly_sorted_unique [] [] s t h = refl
  strictly_sorted_unique [] (y ∷ ys) s t h = absurd (ground (arith, h y, eq_self y))
  strictly_sorted_unique (x ∷ xs) [] s t h = absurd (ground (arith, h x, eq_self x))
  strictly_sorted_unique (x ∷ xs) (y ∷ ys) s t h =
      let e = same_heads x y xs ys s t h in
      let t' : sorted_from x ys ≡ true = rw e t in
      let h' : SameMembers (x ∷ xs) (x ∷ ys) =
        subst (λ v. SameMembers (x ∷ xs) (v ∷ ys)) (sym e) h in
      ap₂ ◌∷◌ e (
        strictly_sorted_unique xs ys (sorted_tail x xs s) (sorted_tail x ys t')
          (same_tails x xs ys s t' h'))
    where
      sorted_tail : (u : A) (us : List A) → sorted_from u us ≡ true → is_strictly_sorted us ≡ true
      sorted_tail u [] k = refl
      sorted_tail u (v ∷ vs) k = ground arith

  -- Sorting and removing duplicates forgets the order and the repetitions, and nothing else.
  pub canonical-eq_of_SameMembers :
      (xs ys : List A) → SameMembers xs ys → dedup (sort xs) ≡ dedup (sort ys)
  canonical-eq_of_SameMembers xs ys h =
      strictly_sorted_unique (dedup (sort xs)) (dedup (sort ys)) (canonical-is_strictly_sorted xs)
        (canonical-is_strictly_sorted ys)
        (λ a. contains-canonical xs a ∙ h a ∙ sym (contains-canonical ys a))

  pub canonical_of_strictly_sorted :
      (xs : List A) → is_strictly_sorted xs ≡ true → dedup (sort xs) ≡ xs
  canonical_of_strictly_sorted xs s =
      strictly_sorted_unique (dedup (sort xs)) xs (canonical-is_strictly_sorted xs) s
        (contains-canonical xs)

  pub is_empty-canonical : (xs : List A) → is_empty (dedup (sort xs)) ≡ is_empty xs
  unfolding contains
  is_empty-canonical [] = unfold sort dedup in refl
  is_empty-canonical (x ∷ xs) =
      held (dedup (sort (x ∷ xs))) (contains-canonical (x ∷ xs) x ∙ ground (arith, eq_self x))
    where
      held : (ys : List A) → contains ys x ≡ true → is_empty ys ≡ false
      held [] h = cc
      held (y ∷ ys) h = refl

module _ {ℓ} {A : Type 0} ⦃o : Ord A⦄ (P : A → Type ℓ) where
  All-insert_sorted : (a : A) (xs : List A) → P a → All P xs → All P (insert_sorted a xs)
  unfolding insert_sorted
  All-insert_sorted a [] h hs = (h, tt)
  All-insert_sorted a (x ∷ xs) h (k, ks) = elim (Bool-cases (o.lt x a)) [
    | inl below ↦ rw below (k, All-insert_sorted a xs h ks)
    | inr above ↦ rw above (h, (k, ks))
  ]

  All-sort : (xs : List A) → All P xs → All P (sort xs)
  unfolding sort
  All-sort [] h = tt
  All-sort (x ∷ xs) (h, hs) = All-insert_sorted x (sort xs) h (All-sort xs hs)

  All-dedup_from : (x : A) (ys : List A) → P x → All P ys → All P (dedup_from x ys)
  unfolding dedup_from
  All-dedup_from x [] h hs = (h, tt)
  All-dedup_from x (y ∷ ys) h (k, ks) = elim (Bool-cases (o.eq x y)) [
    | inl same ↦ rw same (All-dedup_from x ys h ks)
    | inr other ↦ rw other (h, All-dedup_from y ys k ks)
  ]

  All-dedup : (xs : List A) → All P xs → All P (dedup xs)
  unfolding dedup
  All-dedup [] h = tt
  All-dedup (x ∷ xs) (h, hs) = All-dedup_from x xs h hs

  pub All-canonical : (xs : List A) → All P xs → All P (dedup (sort xs))
  All-canonical xs h = All-dedup (sort xs) (All-sort xs h)

-- A strictly sorted list of an enum is no longer than the enum.
sorted_from-bounded :
    {A : Type 0} (rank : A → ℕ) (injective : (a b : A) → rank a ≡ rank b → a ≡ b) (limit : ℕ)
    → ((a : A) → rank a < limit)
    → (x : A) (xs : List A) → sorted_from ⦃o = ord_of_rank rank injective⦄ x xs ≡ true
    → rank x + length xs < limit
unfolding sorted_from
sorted_from-bounded rank injective limit below x [] h = omega (arith, below x)
sorted_from-bounded rank injective limit below x (y ∷ ys) h =
    let rest = sorted_from-bounded rank injective limit below y ys (ground arith) in ground arith

pub strictly_sorted-bounded :
    {A : Type 0} (rank : A → ℕ) (injective : (a b : A) → rank a ≡ rank b → a ≡ b) (limit : ℕ)
    → ((a : A) → rank a < limit)
    → (xs : List A) → is_strictly_sorted ⦃o = ord_of_rank rank injective⦄ xs ≡ true
    → length xs ≤ limit
unfolding is_strictly_sorted
strictly_sorted-bounded rank injective limit below [] h = omega arith
strictly_sorted-bounded rank injective limit below (x ∷ xs) h =
    omega (arith, sorted_from-bounded rank injective limit below x xs h)
