-- ===== src/Protocol/Validators.antt =====
-- protocol/src/lib.rs: the limits, and the validators of tokens, texts and hashes.
pub mod Laws
pub mod Prefix
use reproit_cloud.Prelude.{
  ltb, leb, ◌==◌, if◌then◌else◌, ok, ◌>>=◌, ◌>>◌, reject, ok_or, each, length, is_empty, take, all,
  ℕ, zero, suc, ◌*◌, Bool, not, ◌&&◌, ◌||◌, Option, none, some, List,
}
use reproit_cloud.Text.{
  Text, lit, is_ascii_digit, is_ascii_lowercase, is_ascii_uppercase, is_ascii_alphanumeric,
  is_ascii_hexdigit,
}
use reproit_cloud.Text.Boundary.{is_char_boundary}
use reproit_cloud.Protocol.Errors.{Checked, invalid_event, new}

abbrev pub version : ℕ
version = 1

abbrev pub frame_prefix : Text
frame_prefix = lit "REPROIT/1 "

abbrev pub max_frame_bytes : ℕ
max_frame_bytes = 1024 * 1024

abbrev pub max_header_bytes : ℕ
max_header_bytes = 512

abbrev pub max_batch_frames : ℕ
max_batch_frames = 5000

abbrev pub max_batch_graphs : ℕ
max_batch_graphs = 256

abbrev pub max_artifact_nodes : ℕ
max_artifact_nodes = 4096

abbrev pub max_token_bytes : ℕ
max_token_bytes = 128

abbrev pub max_text_bytes : ℕ
max_text_bytes = 16 * 1024

abbrev pub max_context_bytes : ℕ
max_context_bytes = 64 * 1024

-- The scan of `bounded_prefix`, downwards from an end.
floor_boundary : Text → ℕ → ℕ
floor_boundary value zero = zero
floor_boundary value (suc e) =
    let lower = floor_boundary value e in
    if not (is_char_boundary value (suc e)) then lower else suc e

unfoldable pub bounded_prefix : Text → ℕ → Text
unfolding floor_boundary is_char_boundary
bounded_prefix value max_bytes =
    if leb (length value) max_bytes then value else take (floor_boundary value max_bytes) value

unfoldable pub valid_hash : Text → ℕ → Bool
valid_hash value len =
    length value == len && all (λ b. is_ascii_hexdigit b && not (is_ascii_uppercase b)) value

abbrev pub is_token_byte : ℕ → Bool
is_token_byte b = is_ascii_alphanumeric b || b == b'-' || b == b'_' || b == b'.' || b == b':'

abbrev pub is_lower_token_byte : ℕ → Bool
is_lower_token_byte b = is_ascii_lowercase b || is_ascii_digit b || b == b'-' || b == b'_'

unfoldable pub validate_token : Text → Checked
validate_token value =
    reject (is_empty value || ltb max_token_bytes (length value) || not (all is_token_byte value))
      (new invalid_event)

unfoldable pub validate_lower_token : Text → Checked
validate_lower_token value = do
  validate_token value
  reject (not (all is_lower_token_byte value)) (new invalid_event)

unfoldable pub validate_optional_token : Option Text → Checked
validate_optional_token none = ok tt
validate_optional_token (some value) = validate_token value

unfoldable pub validate_text : Text → ℕ → Checked
validate_text value max_bytes = reject (ltb max_bytes (length value)) (new invalid_event)

unfoldable pub validate_optional_text : Option Text → ℕ → Checked
validate_optional_text none max_bytes = ok tt
validate_optional_text (some value) max_bytes = validate_text value max_bytes

unfoldable pub validate_strings : List Text → ℕ → ℕ → Checked
validate_strings values max_count max_bytes = do
  reject (ltb max_count (length values)) (new invalid_event)
  each (λ value. validate_text value max_bytes) values

-- `serde_json::to_vec(value)` is the argument `bytes`; `none` where it fails.
unfoldable pub validate_value : Option Text → ℕ → Checked
validate_value bytes max_bytes = do
  encoded ← ok_or bytes (new invalid_event)
  reject (ltb max_bytes (length encoded)) (new invalid_event)
