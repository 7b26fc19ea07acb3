-- ===== src/Protocol/Validators/Laws.antt =====
-- What the validators accept, independently of how they test it.
use reproit_cloud.Prelude.{
  IsOk, All, Within, each-IsOk, All-iff, length, all, ℕ, ◌≤◌, ◌<◌, ◌≡◌, refl, ◌≢◌, ◌↔◌, true, not,
  ◌&&◌, Option, none, some, List, [], ◌∷◌, arith,
}
use reproit_cloud.Text.{Text, is_ascii_hexdigit, is_ascii_uppercase}
use reproit_cloud.Text.Split.{lacks}
use reproit_cloud.Protocol.Validators.{
  is_token_byte, validate_token, validate_optional_token, validate_text, validate_optional_text,
  validate_strings, validate_value,
}

pub record IsToken (value : Text) : Type 0 where
  pub filled : value ≢ []
  pub bounded : length value ≤ 128
  pub plain : all is_token_byte value ≡ true

pub validate_token-IsOk : (value : Text) → IsOk (validate_token value) ↔ IsToken value
unfolding validate_token
validate_token-IsOk [] = ((λ h. cc), (λ t. absurd (t.filled refl)))
validate_token-IsOk (b ∷ bs) = (
  (λ h. record { filled = (λ e. cc); bounded = ground arith; plain = ground arith }),
  (λ t. ground arith),
)

pub validate_text-IsOk :
    (value : Text) (max_bytes : ℕ)
    → IsOk (validate_text value max_bytes) ↔ (length value ≤ max_bytes)
unfolding validate_text
validate_text-IsOk value max_bytes = ground arith

pub validate_optional_token-IsOk :
    (value : Option Text) → IsOk (validate_optional_token value) ↔ Within IsToken value
unfolding validate_optional_token
validate_optional_token-IsOk none = ((λ _. tt), (λ _. refl))
validate_optional_token-IsOk (some value) = validate_token-IsOk value

pub validate_optional_text-IsOk :
    (value : Option Text) (max_bytes : ℕ)
    → IsOk (validate_optional_text value max_bytes) ↔ Within (λ v. length v ≤ max_bytes) value
unfolding validate_optional_text
validate_optional_text-IsOk none max_bytes = ((λ _. tt), (λ _. refl))
validate_optional_text-IsOk (some value) max_bytes = validate_text-IsOk value max_bytes

pub validate_strings-IsOk :
    (values : List Text) (max_count max_bytes : ℕ)
    → IsOk (validate_strings values max_count max_bytes)
      ↔ ((length values ≤ max_count) × All (λ v. length v ≤ max_bytes) values)
unfolding validate_strings
validate_strings-IsOk values max_count max_bytes =
    let (to, from) = All-iff (λ v. validate_text-IsOk v max_bytes) values in
    let (split, join) = each-IsOk (λ v. validate_text v max_bytes) values in
    ((λ h. (ground arith, to (split (ground arith)))), (λ (b, h). ground (arith, join (from h))))

pub validate_value-IsOk :
    (bytes : Option Text) (max_bytes : ℕ)
    → IsOk (validate_value bytes max_bytes)
      ↔ ((t : Text) × (bytes ≡ some t) × (length t ≤ max_bytes))
unfolding validate_value
validate_value-IsOk none max_bytes = ((λ h. cc), (λ (t, e, _). cc))
validate_value-IsOk (some t) max_bytes =
    ((λ h. (t, refl, ground arith)), (λ (u, e, h). ground arith))

-- A token holds no byte that separates the fields of a frame line.
pub token-lacks :
    (sep : ℕ) (value : Text) → sep < 45 → all is_token_byte value ≡ true → lacks sep value ≡ true
token-lacks sep [] h k = refl
token-lacks sep (b ∷ bs) h k = ground (arith, token-lacks sep bs)

pub hash-lacks :
    (sep : ℕ) (value : Text)
    → sep < 45
    → all (λ b. is_ascii_hexdigit b && not (is_ascii_uppercase b)) value ≡ true
    → lacks sep value ≡ true
hash-lacks sep [] h k = refl
hash-lacks sep (b ∷ bs) h k = ground (arith, hash-lacks sep bs)
