-- ===== src/Captures.antt =====
-- src/captures.rs: the names and the hashes that a capture's manifest may declare, and the file that
-- an upload may store. The object `fileSha256` of a manifest is a list of its entries, in the order
-- of their names, each with its value where that is a text.
pub mod Upload
pub mod Tests
use reproit_cloud.Text.{is_ascii_alphanumeric, is_ascii_hexdigit, Text, lit, text_eq, starts_with}
use reproit_cloud.Prelude.{
  leb, ◌==◌, if◌then◌else◌, Result, ok, ◌>>=◌, reject, length, is_empty, drop, all, ℕ, Bool, true,
  false, not, ◌&&◌, ◌||◌, Option, none, some, List, [], ◌∷◌, ◌++◌,
}

abbrev pub Files : Type 0
Files = List (Text × Option Text)

-- The manifest's `fileSha256`, where it is an object.
abbrev pub Manifest : Type 0
Manifest = Option Files

abbrev pub is_filename_byte : ℕ → Bool
is_filename_byte b = is_ascii_alphanumeric b || b == b'.' || b == b'_' || b == b'-'

unfoldable pub safe_filename : Text → Bool
safe_filename value =
    not (is_empty value)
    && leb (length value) 128
    && not (starts_with value (lit "."))
    && all is_filename_byte value

unfoldable pub valid_sha256 : Text → Bool
valid_sha256 value = length value == 64 && all is_ascii_hexdigit value

unfoldable pub valid_capture_id : Text → Bool
valid_capture_id value =
    starts_with value (lit "cap_")
    && length (drop 4 value) == 16
    && all is_ascii_hexdigit (drop 4 value)

abbrev pub valid_hash : Option Text → Bool
valid_hash none = false
valid_hash (some hash) = valid_sha256 hash

abbrev pub valid_entry : Text × Option Text → Bool
valid_entry (name, hash) = safe_filename name && valid_hash hash

unfoldable pub valid_manifest_files : Manifest → Bool
unfolding safe_filename valid_sha256
valid_manifest_files none = false
valid_manifest_files (some files) = not (is_empty files) && all valid_entry files

abbrev pub declared : Files → List (Text × Text)
declared [] = []
declared ((name, none) ∷ files) = declared files
declared ((name, some hash) ∷ files) =
    let rest = declared files in
    if safe_filename name && valid_sha256 hash then (name, hash) ∷ rest else rest

unfoldable pub expected_files : Manifest → List (Text × Text)
expected_files none = []
expected_files (some files) = declared files

unfoldable pub expected_hash : List (Text × Text) → Text → Option Text
expected_hash [] filename = none
expected_hash ((name, hash) ∷ files) filename =
    let rest = expected_hash files filename in if text_eq name filename then some hash else rest

abbrev pub is_declared : Option Text → Bool
is_declared none = false
is_declared (some hash) = true

pub data UploadError : Type 0 where
  not_declared invalid_filename hash_required hash_mismatch : UploadError

abbrev pub claimed_hash : Option Text → Option Text
claimed_hash none = none
claimed_hash (some value) = if valid_sha256 value then some value else none

abbrev pub differs : Option Text → Text → Bool
differs none actual = false
differs (some expected) actual = not (text_eq expected actual)

abbrev pub claims_other : Option Text → Text → Bool
claims_other none actual = true
claims_other (some claimed) actual = not (text_eq claimed actual)

abbrev pub lacks_claim : Option Text → Bool
lacks_claim none = true
lacks_claim (some hash) = false

-- The checks of `put_file` on the name, the claimed hash and the hash of the bytes that arrived; the
-- storage key is where the file then goes.
unfoldable pub check_upload : Manifest → Text → Text → Option Text → Text → Result UploadError Text
unfolding expected_files expected_hash safe_filename valid_sha256
check_upload manifest id filename header actual =
    let expected = expected_hash (expected_files manifest) filename in
    let claimed = claimed_hash header in
    reject (not (text_eq filename (lit "manifest.json")) && not (is_declared expected)) not_declared
    >>= λ _. reject (not (safe_filename filename)) invalid_filename >>= λ _.
        reject (lacks_claim claimed) hash_required >>= λ _.
        reject (claims_other claimed actual || differs expected actual) hash_mismatch >>= λ _.
        ok (lit "captures/" ++ id ++ b'/' ∷ filename)
