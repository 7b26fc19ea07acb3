-- ===== src/Text/Boundary.antt =====
-- Character boundaries of UTF-8: `str::is_char_boundary`.
use reproit_cloud.Prelude.{
  ltb, leb, length, ℕ, zero, suc, ◌<◌, ◌≡◌, refl, Bool, true, false, ◌||◌, [], ◌∷◌, ◌++◌, arith,
}
use reproit_cloud.Text.{Text}

-- Before the first byte, behind the last, and before any byte but a continuation byte.
unfoldable pub is_char_boundary : Text → ℕ → Bool
is_char_boundary bytes zero = true
is_char_boundary [] (suc i) = false
is_char_boundary (b ∷ []) (suc zero) = true
is_char_boundary (b ∷ c ∷ bytes) (suc zero) = ltb c 128 || leb 192 c
is_char_boundary (b ∷ bytes) (suc (suc i)) = is_char_boundary bytes (suc i)

-- A text may be cut before an ASCII byte.
pub is_char_boundary-append :
    (head : Text) (b : ℕ) (rest : Text)
    → b < 128
    → is_char_boundary (head ++ (b ∷ rest)) (length head) ≡ true
unfolding is_char_boundary
is_char_boundary-append [] b rest h = refl
is_char_boundary-append (x ∷ []) b rest h = ground arith
is_char_boundary-append (x ∷ y ∷ ys) b rest h = is_char_boundary-append (y ∷ ys) b rest h
