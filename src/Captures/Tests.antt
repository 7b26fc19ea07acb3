-- ===== src/Captures/Tests.antt =====
-- The uploads of src/captures.rs on a concrete manifest.
use reproit_cloud.Captures.{
  check_upload, safe_filename, valid_sha256, Manifest, expected_files, valid_manifest_files,
  valid_capture_id,
}
use reproit_cloud.Captures.Upload.{IsAcceptable, check_upload_sound}
use reproit_cloud.Prelude.{◌≡◌, refl, true, false, some, [], ◌∷◌, ◌++◌}
use reproit_cloud.Text.{starts_with, text_eq, Text, lit}

abbrev hash : Text
hash = lit "0123456789abcdef0123456789abcdef0123456789abcdef0123456789abcdef"

abbrev manifest : Manifest
manifest = some ((lit "../secret", some hash) ∷ (lit "original.mov", some hash) ∷ [])

-- An entry with an unsafe name makes the manifest invalid, and is not expected.
invalid_test : valid_manifest_files manifest ≡ false
unfolding valid_manifest_files starts_with
invalid_test = refl

expected_test : expected_files manifest ≡ (lit "original.mov", hash) ∷ []
unfolding expected_files safe_filename starts_with valid_sha256
expected_test = refl

id_test : valid_capture_id (lit "cap_0123456789abcdef") ≡ true
unfolding valid_capture_id starts_with
id_test = refl

check_upload_sound_example :
    IsAcceptable manifest (lit "original.mov") (some hash) hash
    × (lit "captures/c1/original.mov" ≡ lit "captures/" ++ lit "c1" ++ b'/' ∷ lit "original.mov")
unfolding check_upload text_eq starts_with
check_upload_sound_example =
    check_upload_sound manifest (lit "c1") (lit "original.mov") (some hash) hash
      (lit "captures/c1/original.mov") refl
