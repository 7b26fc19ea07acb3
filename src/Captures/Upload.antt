-- ===== src/Captures/Upload.antt =====
-- What `put_file` of src/captures.rs stores.
use reproit_cloud.Captures.{
  Manifest, check_upload, UploadError, expected_hash, expected_files, safe_filename, valid_sha256,
  differs, claims_other, is_declared, invalid_filename, claimed_hash, lacks_claim, hash_required,
  hash_mismatch, not_declared,
}
use reproit_cloud.Text.Compare.{text_eq_iff}
use reproit_cloud.Prelude.{
  if◌then◌else◌, Bool-cases, ||-false, Result, ok, err, ◌>>=◌, reject, ◌≡◌, refl, sym, ap, subst,
  ◌≢◌, ◌⊎◌, inl, inr, Bool, true, false, not, ◌&&◌, ◌||◌, Option, none, some, [], ◌∷◌, ◌++◌, arith,
}
use reproit_cloud.Text.{Text, lit, text_eq}

reject-bind :
    {E B : Type 0} (b : Bool) (e : E) (f : Unit {0} → Result E B) (k : B)
    → (reject b e >>= f) ≡ ok k
    → (b ≡ false) × (f tt ≡ ok k)
reject-bind true e f k h = absurd (ground arith)
reject-bind false e f k h = (refl, h)

-- The name and the hashes of a file that may be stored.
pub record IsAcceptable (manifest : Manifest) (filename : Text) (header : Option Text)
    (actual : Text) : Type 0 where
  pub known :
      (filename ≡ lit "manifest.json") ⊎ (expected_hash (expected_files manifest) filename ≢ none)
  pub safe : safe_filename filename ≡ true
  pub claimed : header ≡ some actual
  pub hash : valid_sha256 actual ≡ true
  pub expected :
      (expected_hash (expected_files manifest) filename ≡ none)
      ⊎ (expected_hash (expected_files manifest) filename ≡ some actual)

declared_ne_none : (o : Option Text) → is_declared o ≡ true → o ≢ none
declared_ne_none none h = absurd (ground arith)
declared_ne_none (some t) h = λ e. absurd (ground arith)

key_of : Result UploadError Text → Text
key_of (ok key) = key
key_of (err e) = []

known_lem :
    (filename : Text) (o : Option Text)
    → (not (text_eq filename (lit "manifest.json")) && not (is_declared o)) ≡ false
    → (filename ≡ lit "manifest.json") ⊎ (o ≢ none)
known_lem filename o h = elim (Bool-cases (text_eq filename (lit "manifest.json"))) [
  | inl e ↦ inl ((text_eq_iff filename (lit "manifest.json")).0 e)
  | inr e ↦ inr (
      declared_ne_none o
        (not_false (is_declared o) (subst (λ t. (not t && not (is_declared o)) ≡ false) e h)))
]
  where
    not_false : (b : Bool) → not b ≡ false → b ≡ true
    not_false b h = ground arith

claimed_lem :
    (header : Option Text) (actual : Text)
    → claims_other (claimed_hash header) actual ≡ false
    → (header ≡ some actual) × (valid_sha256 actual ≡ true)
claimed_lem none actual h = absurd (ground arith)
claimed_lem (some value) actual h = elim (Bool-cases (valid_sha256 value)) [
  | inl e ↦
      let k = subst (λ t. claims_other (if t then some value else none) actual ≡ false) e h in
      let same = (text_eq_iff value actual).0 (ground (arith, k)) in
      (ap some same, subst (λ t. valid_sha256 t ≡ true) same e)
  | inr e ↦
      let k = subst (λ t. claims_other (if t then some value else none) actual ≡ false) e h in
      absurd (ground arith)
]

expected_lem :
    (o : Option Text) (actual : Text) → differs o actual ≡ false → (o ≡ none) ⊎ (o ≡ some actual)
expected_lem none actual h = inl refl
expected_lem (some t) actual h = inr (ap some ((text_eq_iff t actual).0 (ground (arith, h))))

-- A file is stored only under its own name below its capture, and only if the name is safe and is
-- declared by the manifest or is that of the manifest itself, and the bytes that arrived have the hash
-- that the client claimed and that the manifest declares, if it declares one.
pub check_upload_sound :
    (manifest : Manifest) (id filename : Text) (header : Option Text) (actual key : Text)
    → check_upload manifest id filename header actual ≡ ok key
    → IsAcceptable manifest filename header actual
      × (key ≡ lit "captures/" ++ id ++ b'/' ∷ filename)
unfolding check_upload key_of
check_upload_sound manifest id filename header actual key h =
    let o = expected_hash (expected_files manifest) filename in
    let (a, h1) =
      reject-bind (not (text_eq filename (lit "manifest.json")) && not (is_declared o)) not_declared
        _ key h in
    let (b, h2) = reject-bind (not (safe_filename filename)) invalid_filename _ key h1 in
    let (c, h3) = reject-bind (lacks_claim (claimed_hash header)) hash_required _ key h2 in
    let (d, h4) =
      reject-bind (claims_other (claimed_hash header) actual || differs o actual) hash_mismatch _
        key h3 in
    let (other, differ) =
      ||-false (claims_other (claimed_hash header) actual) (differs o actual) d in
    let (claimed, hash) = claimed_lem header actual other in
    (
      record {
        known = known_lem filename o a;
        safe = ground (arith, b);
        claimed = claimed;
        hash = hash;
        expected = expected_lem o actual differ;
      },
      ap key_of (sym h4),
    )
