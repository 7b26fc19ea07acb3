-- ===== src/Protocol/Validators/Prefix.antt =====
-- The bounded prefix of a header: the longest one that ends at a character.
use reproit_cloud.Prelude.{
  leb, Bool-cases, length, take, drop, length-take, take-append-drop, ℕ, zero, suc, ◌≤◌, ◌≡◌, refl,
  ◌≢◌, inl, inr, true, false, [], ◌∷◌, ◌++◌, arith,
}
use mathlib.Core.List.{append-nil}
use reproit_cloud.Text.{Text}
use reproit_cloud.Text.Boundary.{is_char_boundary}
use reproit_cloud.Protocol.Validators.{bounded_prefix, floor_boundary}

floor_boundary-le : (value : Text) (e : ℕ) → floor_boundary value e ≤ e
unfolding floor_boundary
floor_boundary-le value zero = omega arith
floor_boundary-le value (suc e) = ground (arith, floor_boundary-le value e)

floor_boundary-is_char_boundary :
    (value : Text) (e : ℕ) → is_char_boundary value (floor_boundary value e) ≡ true
unfolding floor_boundary
floor_boundary-is_char_boundary value zero = boundary_zero value
  where
    boundary_zero : (v : Text) → is_char_boundary v 0 ≡ true
    boundary_zero v = unfold is_char_boundary in refl
floor_boundary-is_char_boundary value (suc e) =
    ground (arith, floor_boundary-is_char_boundary value e)

floor_boundary_maximal :
    (value : Text) (e i : ℕ) → i ≤ e → is_char_boundary value i ≡ true → i ≤ floor_boundary value e
unfolding floor_boundary
floor_boundary_maximal value zero i h k = h
floor_boundary_maximal value (suc e) i h k = elim (Bool-cases (is_char_boundary value (suc e))) [
  | inl at ↦ rw at h
  | inr not_at ↦ rw not_at (floor_boundary_maximal value e i (below i h k not_at) k)
]
  where
    below :
        (j : ℕ)
        → j ≤ suc e
        → is_char_boundary value j ≡ true
        → is_char_boundary value (suc e) ≡ false
        → j ≤ e
    below j p q r = ground (arith, same j q r)
      where
        same :
            (j : ℕ)
            → is_char_boundary value j ≡ true
            → is_char_boundary value (suc e) ≡ false
            → j ≢ suc e
        same j q r eq = cc

is_char_boundary-length : (value : Text) → is_char_boundary value (length value) ≡ true
unfolding is_char_boundary
is_char_boundary-length [] = refl
is_char_boundary-length (b ∷ []) = refl
is_char_boundary-length (b ∷ c ∷ bytes) = is_char_boundary-length (c ∷ bytes)

pub record IsFloorPrefix (value : Text) (max_bytes : ℕ) (head : Text) : Type 0 where
  pub prefix : (rest : Text) × (head ++ rest ≡ value)
  pub bounded : length head ≤ max_bytes
  pub at_boundary : is_char_boundary value (length head) ≡ true
  pub longest :
      (i : ℕ) → i ≤ max_bytes → i ≤ length value → is_char_boundary value i ≡ true → i ≤ length head

-- The prefix is the longest one of the text that ends at a character boundary within the bound.
pub bounded_prefix-IsFloorPrefix :
    (value : Text) (max_bytes : ℕ) → IsFloorPrefix value max_bytes (bounded_prefix value max_bytes)
unfolding bounded_prefix
bounded_prefix-IsFloorPrefix value max_bytes = elim (Bool-cases (leb (length value) max_bytes)) [
  | inl fits ↦ rw fits (record {
    prefix = ([], append-nil value);
    bounded = ground arith;
    at_boundary = is_char_boundary-length value;
    longest = λ i _ h _. h;
  })
  | inr long ↦ rw long (record {
    prefix = (drop end value, take-append-drop end value);
    bounded = omega (arith, taken long, floor_boundary-le value max_bytes);
    at_boundary = rw (taken long) (floor_boundary-is_char_boundary value max_bytes);
    longest = λ i h _ k. rw (taken long) (floor_boundary_maximal value max_bytes i h k);
  })
]
  where
    end : ℕ
    end = floor_boundary value max_bytes

    taken : leb (length value) max_bytes ≡ false → length (take end value) ≡ end
    taken long = ground (arith, length-take end value, floor_boundary-le value max_bytes)
