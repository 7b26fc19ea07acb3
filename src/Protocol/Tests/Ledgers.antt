-- ===== src/Protocol/Tests/Ledgers.antt =====
-- Ledgers and envelopes of protocol/src/lib.rs and protocol/src/environment.rs on concrete inputs.
use reproit_cloud.Text.Compare.{text_ord}
use reproit_cloud.Protocol.Ledger.Order.{
  blocker_ord, authored_contract, violation, confirmed, reproduced, preserved,
}
use reproit_cloud.Prelude.Order.{contains}
use reproit_cloud.Protocol.Ledger.{derive_promotion, validate_ledger, from_stages}
use reproit_cloud.Protocol.Environment.{
  validate_envelope, EnvironmentTrial, EnvironmentEnvelope, reproduces,
}
use reproit_cloud.Text.{lit, Text}
use reproit_cloud.Protocol.Tests.{sample_ledger}
use reproit_cloud.Protocol.Environment.Laws.{IsEnvelope, validate_envelope-IsOk}
use reproit_cloud.Protocol.Ledger.Canonical.{
  IsLedger, validate_ledger-IsOk, from_stages-eq_of_SameMembers,
}
use reproit_cloud.Protocol.Ledger.Promotion.{IsComplete, derive_promotion-confirmed_iff}
use reproit_cloud.Prelude.{IsOk, ◌≡◌, refl, ◌↔◌, true, none, [], ◌∷◌, arith}

derive_promotion-confirmed_iff_example :
    ((derive_promotion (authored_contract ∷ []) violation reproduced true preserved).0 ≡ confirmed)
    ↔ IsComplete (authored_contract ∷ []) violation reproduced true preserved
derive_promotion-confirmed_iff_example =
    derive_promotion-confirmed_iff (authored_contract ∷ []) violation reproduced true preserved

validate_ledger-IsOk_example : IsOk (validate_ledger sample_ledger) ↔ IsLedger sample_ledger
validate_ledger-IsOk_example = validate_ledger-IsOk sample_ledger

-- A repetition adds no member.
twice : (x a : Text) → contains (x ∷ []) a ≡ contains (x ∷ x ∷ []) a
unfolding contains
twice x a = ground arith

from_stages-eq_of_SameMembers_example :
    from_stages (lit "a" ∷ []) (authored_contract ∷ []) violation [] reproduced true preserved
    ≡ from_stages
        (lit "a" ∷ lit "a" ∷ [])
        (authored_contract ∷ [])
        violation
        []
        reproduced
        true
        preserved
from_stages-eq_of_SameMembers_example =
    from_stages-eq_of_SameMembers (lit "a" ∷ []) (lit "a" ∷ lit "a" ∷ []) (authored_contract ∷ [])
      (authored_contract ∷ []) [] [] violation reproduced true preserved (twice (lit "a"))
      (λ _. refl) (λ _. refl)

abbrev trial : EnvironmentTrial
trial = record {
  dimension = lit "locale";
  baseline = lit "de";
  candidate = none;
  outcome = reproduces;
  reason = [];
  replay_attempts = 1;
}

abbrev envelope : EnvironmentEnvelope
envelope = record {
  version = 1;
  complete = true;
  replay_attempts = 2;
  relaxed_dimensions = lit "locale" ∷ [];
  trials = trial ∷ [];
}

validate_envelope-IsOk_example :
    IsOk (validate_envelope envelope ((lit "locale", lit "de") ∷ []))
    ↔ IsEnvelope envelope ((lit "locale", lit "de") ∷ [])
validate_envelope-IsOk_example =
    validate_envelope-IsOk envelope ((lit "locale", lit "de") ∷ []) (omega arith, tt)
