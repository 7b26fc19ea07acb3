-- ===== src/Security/Host.antt =====
-- The host check and the comparison of secrets of src/http_security.rs. `str::trim` is an argument.
pub mod Equal
use Prim.Native.Nat.{bit_xor, bit_or}
use reproit_cloud.Text.Once.{split_once}
use reproit_cloud.Security.Origin.{lower_byte, to_ascii_lowercase}
use reproit_cloud.Text.{starts_with, Text, lit, text_eq}
use reproit_cloud.Prelude.{
  ◌==◌, if◌then◌else◌, length, is_empty, any, ℕ, Bool, false, ◌||◌, Option, none, some, List, [],
  ◌∷◌, ◌++◌,
}

abbrev or_empty : ℕ → Text → Text
or_empty b [] = if b == b'.' then [] else b ∷ []
or_empty b (c ∷ cs) = b ∷ c ∷ cs

-- `trim_end_matches('.')`
unfoldable pub trim_dots : Text → Text
trim_dots [] = []
trim_dots (b ∷ bs) = or_empty b (trim_dots bs)

abbrev closed_at : Text → Option (Text × Text) → Text
closed_at host none = host
closed_at host (some (head, rest)) = head ++ (b']' ∷ [])

abbrev named_at : Text → Option (Text × Text) → Text
named_at host none = host
named_at host (some (name, port)) = name

-- Without its port; an IPv6 address keeps its brackets.
unfoldable pub strip_port : Text → Text
unfolding split_once
strip_port host =
    if starts_with host (lit "[")
    then closed_at host (split_once b']' host)
    else named_at host (split_once b':' host)

unfoldable pub normalize_host : (Text → Text) → Text → Option Text
unfolding trim_dots strip_port lower_byte
normalize_host trim value =
    let host = to_ascii_lowercase (trim_dots (trim value)) in
    if is_empty host then none else some (strip_port host)

abbrev known : List Text → Option Text → Bool
known allowed none = false
known allowed (some host) = any (λ a. text_eq a host) allowed

abbrev normalized : (Text → Text) → Option Text → Option Text
normalized trim none = none
normalized trim (some host) = normalize_host trim host

unfoldable pub host_is_allowed : (Text → Text) → Option Text → List Text → Bool
unfolding normalize_host
host_is_allowed trim host allowed = is_empty allowed || known allowed (normalized trim host)

-- `diff |= x ^ y` over the pairs
unfoldable pub fold_diff : ℕ → List ℕ → List ℕ → ℕ
fold_diff diff [] b = diff
fold_diff diff (x ∷ a) [] = diff
fold_diff diff (x ∷ a) (y ∷ b) = fold_diff (bit_or diff (bit_xor x y)) a b

-- Constant-time comparison of two lists of bytes.
unfoldable pub ct_eq : List ℕ → List ℕ → Bool
unfolding fold_diff
ct_eq a b = if length a == length b then fold_diff 0 a b == 0 else false
