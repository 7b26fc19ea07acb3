-- ===== src/Protocol/Scope.antt =====
-- protocol/src/lib.rs: `EvidenceScope`, and the scope of a frame line's header.
pub mod Laws
use reproit_cloud.Prelude.{
  if◌then◌else◌, ok, reject, get_elem?, ℕ, Bool, true, false, not, ◌&&◌, Option, none, some, List,
  ◌∷◌,
}
use reproit_cloud.Text.{Text, lit, text_eq}
use reproit_cloud.Text.Split.{split}
use reproit_cloud.Text.Decimal.{parse_u64}
use reproit_cloud.Protocol.Errors.{
  EvidenceScope, shared, backend, contract, Checked, invalid_scope, new,
}
use reproit_cloud.Protocol.Validators.{valid_hash}

unfoldable pub affects_contract : EvidenceScope → Text → Bool
affects_contract shared contract_hash = true
affects_contract backend contract_hash = false
affects_contract (contract none) contract_hash = true
affects_contract (contract (some affected)) contract_hash = text_eq affected contract_hash

unfoldable pub validate_scope : EvidenceScope → Checked
validate_scope (contract (some hash)) = reject (not (valid_hash hash 16)) (new invalid_scope)
validate_scope _ = ok tt

unfoldable pub header_parts : EvidenceScope → Text × Text
header_parts shared = (lit "shared", lit "-")
header_parts backend = (lit "backend", lit "-")
header_parts (contract (some hash)) = (lit "contract", hash)
header_parts (contract none) = (lit "contract", lit "-")

unfoldable pub parse_scope : Text → Text → Option EvidenceScope
parse_scope domain subject =
    if text_eq domain (lit "shared") && text_eq subject (lit "-")
    then some shared
    else if text_eq domain (lit "backend") && text_eq subject (lit "-")
    then some backend
    else if text_eq domain (lit "contract") && text_eq subject (lit "-")
    then some (contract none)
    else if text_eq domain (lit "contract") && valid_hash subject 16
    then some (contract (some subject))
    else none

-- `fields.next()?` three times.
scope_of_fields : List Text → Option EvidenceScope
scope_of_fields (magic ∷ domain ∷ subject ∷ _) =
    if text_eq magic (lit "REPROIT/1") then parse_scope domain subject else none
scope_of_fields _ = none

unfoldable pub header_scope : Text → Option EvidenceScope
unfolding scope_of_fields split parse_scope
header_scope header = scope_of_fields (split b' ' header)

parse_optional : Option Text → Option ℕ
parse_optional none = none
parse_optional (some value) = parse_u64 value

unfoldable pub header_sequence : Text → Option ℕ
unfolding parse_optional split parse_u64
header_sequence header = parse_optional (get_elem? (split b' ' header) 3)
