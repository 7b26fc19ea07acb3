-- ===== src/Protocol/Ledger/Canonical.antt =====
-- `from_stages`: what it accepts, and that its result is a canonical form.
use reproit_cloud.Prelude.{
  ok, each, IsOk, All, each-IsOk, All-iff, length, is_empty, ◌≤◌, ◌<◌, ◌≡◌, refl, sym, ap, ◌∙◌, ◌≢◌,
  ◌↔◌, Bool, true, false, ◌&&◌, List, [], ◌∷◌, arith,
}
use reproit_cloud.Prelude.Order.{is_strictly_sorted, sort, dedup, SameMembers}
use reproit_cloud.Prelude.Order.Canonical.{
  canonical-is_strictly_sorted, canonical-eq_of_SameMembers, canonical_of_strictly_sorted,
  is_empty-canonical, strictly_sorted-bounded,
}
use reproit_cloud.Text.{Text}
use reproit_cloud.Text.Compare.{text_ord}
use reproit_cloud.Protocol.Errors.{
  ReasonCode, reason_code_ord, reason_code_rank, reason_code_rank-injective,
}
use reproit_cloud.Protocol.Validators.{validate_text}
use reproit_cloud.Protocol.Validators.Laws.{validate_text-IsOk}
use reproit_cloud.Protocol.Ledger.Order.{
  EvaluationStatus, satisfied, violation, abstain, AuthoritySource, ConfirmationStatus,
  MinimizationStatus, PromotionStatus, PromotionBlocker, authority_ord, authority_rank,
  authority_rank-injective, is_abstain, same_promotion, same_blockers_iff, candidate, confirmed,
}
use reproit_cloud.Protocol.Ledger.{
  ProofLedger, derive_promotion, validate_ledger, ledger_of_stages, from_stages,
}
use reproit_cloud.Protocol.Ledger.Promotion.{validate_ledger-promotion}

reason_code_rank-lt : (r : ReasonCode) → reason_code_rank r < 11
reason_code_rank-lt r = ground arith

authority_rank-lt : (a : AuthoritySource) → authority_rank a < 4
authority_rank-lt a = ground arith

pub length-authority : (xs : List AuthoritySource) → is_strictly_sorted xs ≡ true → length xs ≤ 4
length-authority =
    strictly_sorted-bounded authority_rank authority_rank-injective 4 authority_rank-lt

pub length-reasons : (xs : List ReasonCode) → is_strictly_sorted xs ≡ true → length xs ≤ 11
length-reasons =
    strictly_sorted-bounded reason_code_rank reason_code_rank-injective 11 reason_code_rank-lt

same_promotion_self : (p : PromotionStatus) → same_promotion p p ≡ true
same_promotion_self candidate = refl
same_promotion_self confirmed = refl

pub expected : ProofLedger → PromotionStatus × List PromotionBlocker
expected l =
    derive_promotion l.authority l.evaluation l.confirmation l.replay_identity_matched
      l.minimization

-- A ledger in canonical form: sorted without repetitions, bounded, and with its own promotion.
pub record IsLedger (l : ProofLedger) : Type 0 where
  pub named : is_empty l.finding_identities ≡ false
  pub few : length l.finding_identities ≤ 256
  pub short : All (λ i. length i ≤ 16384) l.finding_identities
  pub explained : (is_abstain l.evaluation && is_empty l.evaluation_reasons) ≡ false
  pub identities : is_strictly_sorted l.finding_identities ≡ true
  pub authority : is_strictly_sorted l.authority ≡ true
  pub reasons : is_strictly_sorted l.evaluation_reasons ≡ true
  pub promotion : l.promotion ≡ (expected l).0
  pub blockers : l.blockers ≡ (expected l).1

short_iff :
    (is' : List Text)
    → IsOk (each (λ i. validate_text i 16384) is') ↔ All (λ i. length i ≤ 16384) is'
short_iff is' =
    let (to, from) = each-IsOk (λ i. validate_text i 16384) is' in
    let (there, back) = All-iff (λ i. validate_text-IsOk i 16384) is' in
    ((λ h. there (to h)), (λ h. from (back h)))

-- The validator accepts exactly the ledgers in canonical form.
pub validate_ledger-IsOk : (l : ProofLedger) → IsOk (validate_ledger l) ↔ IsLedger l
unfolding validate_ledger expected
validate_ledger-IsOk l = (
  (λ h. record {
    named = ground arith;
    few = ground arith;
    short = (short_iff l.finding_identities).0 (ground arith);
    explained = ground arith;
    identities = ground arith;
    authority = ground arith;
    reasons = ground arith;
    promotion = (validate_ledger-promotion l h).0;
    blockers = (validate_ledger-promotion l h).1;
  }),
  (λ v. ground (
    arith,
    (short_iff l.finding_identities).1 v.short,
    v.named,
    v.few,
    v.explained,
    v.identities,
    v.authority,
    v.reasons,
    length-authority l.authority v.authority,
    length-reasons l.evaluation_reasons v.reasons,
    ap (same_promotion l.promotion) (sym v.promotion) ∙ same_promotion_self l.promotion,
    (same_blockers_iff l.blockers (expected l).1).1 v.blockers,
  )),
)

module _ (identities : List Text) (authority : List AuthoritySource) (evaluation : EvaluationStatus)
    (reasons : List ReasonCode) (confirmation : ConfirmationStatus) (matched : Bool)
    (minimization : MinimizationStatus) where
  -- The stages that a ledger can record.
  pub record IsRecordable : Type 0 where
    pub named : identities ≢ []
    pub few : length (dedup (sort identities)) ≤ 256
    pub short : All (λ i. length i ≤ 16384) (dedup (sort identities))
    pub explained : evaluation ≡ abstain → reasons ≢ []

  recordable_iff :
      IsLedger
        (ledger_of_stages identities authority evaluation reasons confirmation matched minimization)
      ↔ IsRecordable
  unfolding ledger_of_stages expected
  recordable_iff = (
    (λ v. record {
      named = λ e. ground (arith, v.named, is_empty-canonical identities, ap is_empty e);
      few = v.few;
      short = v.short;
      explained = λ e f.
          ground (arith, v.explained, is_empty-canonical reasons, ap is_abstain e, ap is_empty f);
    }),
    (λ r. record {
      named = is_empty-canonical identities ∙ filled identities r.named;
      few = r.few;
      short = r.short;
      explained =
          ap (◌&&◌ (is_abstain evaluation)) (is_empty-canonical reasons)
          ∙ reasoned evaluation reasons r.explained;
      identities = canonical-is_strictly_sorted identities;
      authority = canonical-is_strictly_sorted authority;
      reasons = canonical-is_strictly_sorted reasons;
      promotion = refl;
      blockers = refl;
    }),
  )
    where
      filled : {A : Type 0} (xs : List A) → xs ≢ [] → is_empty xs ≡ false
      filled [] h = absurd (h refl)
      filled (x ∷ xs) h = refl

      reasoned :
          (e : EvaluationStatus) (rs : List ReasonCode)
          → (e ≡ abstain → rs ≢ [])
          → (is_abstain e && is_empty rs) ≡ false
      reasoned abstain [] h = absurd (h refl refl)
      reasoned abstain (r ∷ rs) h = refl
      reasoned satisfied rs h = refl
      reasoned violation rs h = refl

  -- `from_stages` succeeds exactly on what can be recorded, with the canonical ledger.
  pub from_stages_iff :
      (from_stages identities authority evaluation reasons confirmation matched minimization
        ≡ ok (
            ledger_of_stages identities authority evaluation reasons confirmation matched
              minimization))
      ↔ IsRecordable
  unfolding from_stages
  from_stages_iff =
      let stages =
        ledger_of_stages identities authority evaluation reasons confirmation matched
          minimization in
      let (to, from) = validate_ledger-IsOk stages in
      (
        (λ h. recordable_iff.0 (to (ground arith))),
        (λ r. ground (arith, from (recordable_iff.1 r))),
      )

-- The order and the repetitions in which the stages are reported do not matter.
pub from_stages-eq_of_SameMembers :
    (is' js : List Text) (as' bs : List AuthoritySource) (rs ss : List ReasonCode)
    (evaluation : EvaluationStatus) (confirmation : ConfirmationStatus) (matched : Bool)
    (minimization : MinimizationStatus)
    → SameMembers is' js
    → SameMembers as' bs
    → SameMembers rs ss
    → from_stages is' as' evaluation rs confirmation matched minimization
      ≡ from_stages js bs evaluation ss confirmation matched minimization
unfolding from_stages
from_stages-eq_of_SameMembers is' js as' bs rs ss evaluation confirmation matched minimization h k
      l =
    rw (
      canonical-eq_of_SameMembers is' js h,
      canonical-eq_of_SameMembers as' bs k,
      canonical-eq_of_SameMembers rs ss l,
    )

-- A ledger that is accepted is rebuilt from its own stages.
pub from_stages_of_valid :
    (l : ProofLedger)
    → IsOk (validate_ledger l)
    → from_stages l.finding_identities l.authority l.evaluation l.evaluation_reasons l.confirmation
        l.replay_identity_matched l.minimization
      ≡ ok l
unfolding from_stages expected
from_stages_of_valid l h =
    let v = (validate_ledger-IsOk l).0 h in
    let same : ledger_of_stages l.finding_identities l.authority l.evaluation l.evaluation_reasons
          l.confirmation l.replay_identity_matched l.minimization
        ≡ l =
      rw
        (
          canonical_of_strictly_sorted l.finding_identities v.identities,
          canonical_of_strictly_sorted l.authority v.authority,
          canonical_of_strictly_sorted l.evaluation_reasons v.reasons,
        )
        (ground (arith, v.promotion, v.blockers)) in
    rw (same, h)
