-- ===== src/Tenancy/Blob/Isolation.antt =====
-- No key of src/tenancy/blob.rs leaves the scope of its tenant.
use reproit_cloud.Tenancy.Blob.{scoped, safe_scoped, is_safe_key, trim_slashes, is_bad_segment}
use reproit_cloud.Text.Split.{lacks, split-append, split}
use reproit_cloud.Text.{starts_with, lit, Text}
use reproit_cloud.Prelude.{
  if◌then◌else◌, Bool-cases, &&-true, All, is_empty, any, ◌≡◌, sym, ap, subst, ◌∙◌, inl, inr, Bool,
  true, false, not, ◌&&◌, none, some, List, [], ◌∷◌, ◌++◌, arith, some_eq,
}

safe_scoped_inv :
    (scope key full : Text)
    → safe_scoped scope key ≡ some full
    → (scoped scope key ≡ full) × (is_safe_key full ≡ true)
unfolding safe_scoped
safe_scoped_inv scope key full h = elim (Bool-cases (is_safe_key (scoped scope key))) [
  | inl e ↦
      let same =
        some_eq (subst (λ t. (if t then some (scoped scope key) else none) ≡ some full) e h) in
      (same, subst (λ k. is_safe_key k ≡ true) same e)
  | inr e ↦
      let clash = subst (λ t. (if t then some (scoped scope key) else none) ≡ some full) e h in
      absurd (ground arith)
]

all_of_any : (p : Text → Bool) (xs : List Text) → not (any p xs) ≡ true → All (λ x. p x ≡ false) xs
all_of_any p [] h = tt
all_of_any p (x ∷ xs) h = (ground (arith, h), all_of_any p xs (ground (arith, h)))

append_segments :
    (P : Text → Type 0) (xs : List Text) (ys : List Text) → All P (xs ++ ys) → All P ys
append_segments P [] ys h = h
append_segments P (x ∷ xs) ys (_, h) = append_segments P xs ys h

-- What a tenant with a scope addresses stands below the scope, and no segment of the key is empty, `.`
-- or `..`: where the scope is one segment.
pub safe_scoped_sound :
    (scope key full : Text)
    → is_empty scope ≡ false
    → lacks b'/' (trim_slashes scope) ≡ true
    → safe_scoped scope key ≡ some full
    → (full ≡ trim_slashes scope ++ b'/' ∷ key)
      × All (λ seg. is_bad_segment seg ≡ false) (split b'/' key)
unfolding is_safe_key scoped
safe_scoped_sound scope key full s l h =
    let (same, safe) = safe_scoped_inv scope key full h in
    let whole = sym same ∙ ap (λ t. if t then key else trim_slashes scope ++ b'/' ∷ key) s in
    let segments =
      all_of_any is_bad_segment (split b'/' full)
        (&&-true (not (is_empty full) && not (starts_with full (lit "/")))
          (not (any is_bad_segment (split b'/' full))) safe).1 in
    let cut = ap (split b'/') whole ∙ split-append b'/' (trim_slashes scope) key l in
    (whole, (subst (All (λ seg. is_bad_segment seg ≡ false)) cut segments).1)

abbrev first_piece : List Text → Text
first_piece [] = []
first_piece (p ∷ ps) = p
