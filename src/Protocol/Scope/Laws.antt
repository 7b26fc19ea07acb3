-- ===== src/Protocol/Scope/Laws.antt =====
-- The scope survives the header, and a header's fields hold no separator.
use reproit_cloud.Prelude.{IsOk, ◌≡◌, refl, ◌↔◌, true, false, none, some, [], ◌∷◌, arith}
use reproit_cloud.Text.{Text, lit, text_eq}
use reproit_cloud.Text.Compare.{text_eq_iff}
use reproit_cloud.Text.Split.{lacks}
use reproit_cloud.Protocol.Errors.{EvidenceScope, shared, backend, contract}
use reproit_cloud.Protocol.Validators.{valid_hash}
use reproit_cloud.Protocol.Validators.Laws.{hash-lacks}
use reproit_cloud.Protocol.Scope.{affects_contract, validate_scope, header_parts, parse_scope}

-- The scope is of a form that a header can carry.
abbrev pub IsValidScope : EvidenceScope → Type 0
IsValidScope shared = Unit {0}
IsValidScope backend = Unit {0}
IsValidScope (contract none) = Unit {0}
IsValidScope (contract (some hash)) = valid_hash hash 16 ≡ true

pub validate_scope-IsOk : (s : EvidenceScope) → IsOk (validate_scope s) ↔ IsValidScope s
unfolding validate_scope
validate_scope-IsOk shared = ((λ _. tt), (λ _. refl))
validate_scope-IsOk backend = ((λ _. tt), (λ _. refl))
validate_scope-IsOk (contract none) = ((λ _. tt), (λ _. refl))
validate_scope-IsOk (contract (some hash)) = ground arith

hash_ne_dash : (hash : Text) → valid_hash hash 16 ≡ true → text_eq hash (lit "-") ≡ false
unfolding valid_hash text_eq
hash_ne_dash [] h = refl
hash_ne_dash (b ∷ []) h = cc
hash_ne_dash (b ∷ c ∷ bs) h = ground arith

-- Reading a valid scope's header fields gives the scope back.
pub parse_scope-header_parts :
    (s : EvidenceScope)
    → IsValidScope s
    → parse_scope (header_parts s).0 (header_parts s).1 ≡ some s
unfolding parse_scope header_parts text_eq
parse_scope-header_parts shared v = refl
parse_scope-header_parts backend v = refl
parse_scope-header_parts (contract none) v = refl
parse_scope-header_parts (contract (some hash)) v = rw (hash_ne_dash hash v, v)

-- What is read from a header is valid.
pub parse_scope-IsValidScope :
    (domain subject : Text) {s : EvidenceScope}
    → parse_scope domain subject ≡ some s
    → IsValidScope s
unfolding parse_scope
parse_scope-IsValidScope domain subject {s = shared} e = tt
parse_scope-IsValidScope domain subject {s = backend} e = tt
parse_scope-IsValidScope domain subject {s = contract none} e = tt
parse_scope-IsValidScope domain subject {s = contract (some hash)} e = ground arith

pub header_parts-lacks :
    (s : EvidenceScope)
    → IsValidScope s
    → (lacks b' ' (header_parts s).0 ≡ true) × (lacks b' ' (header_parts s).1 ≡ true)
unfolding header_parts valid_hash
header_parts-lacks shared v = (refl, refl)
header_parts-lacks backend v = (refl, refl)
header_parts-lacks (contract none) v = (refl, refl)
header_parts-lacks (contract (some hash)) v =
    (refl, hash-lacks b' ' hash (omega arith) (ground arith))

-- Evidence on one contract, read from a header, affects that contract and no other.
pub affects_contract_iff :
    (hash other : Text) → (affects_contract (contract (some hash)) other ≡ true) ↔ (hash ≡ other)
unfolding affects_contract
affects_contract_iff hash other = text_eq_iff hash other
