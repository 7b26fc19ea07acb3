-- ===== src/Protocol/Ledger/Order.antt =====
-- protocol/src/lib.rs: the statuses of a proof, with their derived equality and order.
use reproit_cloud.Prelude.{◌==◌, ℕ, ◌≡◌, refl, ◌↔◌, Bool, true, false, ◌&&◌, List, [], ◌∷◌, arith}
use reproit_cloud.Prelude.Order.{Ord, ord_of_rank}
use reproit_cloud.Text.{Text, lit}

pub data EvaluationStatus : Type 0 where
  satisfied violation abstain : EvaluationStatus

pub data AuthoritySource : Type 0 where
  authored_contract runtime_diagnosis approved_baseline published_standard : AuthoritySource

pub data ConfirmationStatus : Type 0 where
  not_attempted reproduced not_reproduced flaky stale could_not_replay : ConfirmationStatus

pub data MinimizationStatus : Type 0 where
  not_attempted preserved could_not_confirm : MinimizationStatus

pub data PromotionStatus : Type 0 where
  candidate confirmed : PromotionStatus

pub data PromotionBlocker : Type 0 where
  missing_authority no_violation evaluation_abstained replay_not_reproduced replay_identity_mismatch
        minimization_not_preserved :
      PromotionBlocker

unfoldable pub promotion_blocker_as_str : PromotionBlocker → Text
promotion_blocker_as_str missing_authority = lit "missing-authority"
promotion_blocker_as_str no_violation = lit "no-violation"
promotion_blocker_as_str evaluation_abstained = lit "evaluation-abstained"
promotion_blocker_as_str replay_not_reproduced = lit "replay-not-reproduced"
promotion_blocker_as_str replay_identity_mismatch = lit "replay-identity-mismatch"
promotion_blocker_as_str minimization_not_preserved = lit "minimization-not-preserved"

abbrev pub is_abstain : EvaluationStatus → Bool
is_abstain abstain = true
is_abstain _ = false

abbrev pub is_reproduced : ConfirmationStatus → Bool
is_reproduced reproduced = true
is_reproduced _ = false

abbrev pub is_preserved : MinimizationStatus → Bool
is_preserved preserved = true
is_preserved _ = false

abbrev pub same_promotion : PromotionStatus → PromotionStatus → Bool
same_promotion candidate candidate = true
same_promotion confirmed confirmed = true
same_promotion _ _ = false

abbrev pub authority_rank : AuthoritySource → ℕ
authority_rank authored_contract = 0
authority_rank runtime_diagnosis = 1
authority_rank approved_baseline = 2
authority_rank published_standard = 3

pub authority_rank-injective : (a b : AuthoritySource) → authority_rank a ≡ authority_rank b → a ≡ b
authority_rank-injective a b h = ground arith

instance abbrev pub authority_ord : Ord AuthoritySource
authority_ord = ord_of_rank authority_rank authority_rank-injective

abbrev pub blocker_rank : PromotionBlocker → ℕ
blocker_rank missing_authority = 0
blocker_rank no_violation = 1
blocker_rank evaluation_abstained = 2
blocker_rank replay_not_reproduced = 3
blocker_rank replay_identity_mismatch = 4
blocker_rank minimization_not_preserved = 5

pub blocker_rank-injective : (a b : PromotionBlocker) → blocker_rank a ≡ blocker_rank b → a ≡ b
blocker_rank-injective a b h = ground arith

instance abbrev pub blocker_ord : Ord PromotionBlocker
blocker_ord = ord_of_rank blocker_rank blocker_rank-injective

-- `a == b` on lists of blockers
unfoldable pub same_blockers : List PromotionBlocker → List PromotionBlocker → Bool
same_blockers [] [] = true
same_blockers [] (_ ∷ _) = false
same_blockers (_ ∷ _) [] = false
same_blockers (a ∷ as') (b ∷ bs) = blocker_rank a == blocker_rank b && same_blockers as' bs

pub same_blockers_iff :
    (as' bs : List PromotionBlocker) → (same_blockers as' bs ≡ true) ↔ (as' ≡ bs)
unfolding same_blockers
same_blockers_iff [] [] = ((λ _. refl), (λ _. refl))
same_blockers_iff [] (b ∷ bs) = ((λ h. cc), (λ h. cc))
same_blockers_iff (a ∷ as') [] = ((λ h. cc), (λ h. cc))
same_blockers_iff (a ∷ as') (b ∷ bs) =
    ground (arith, same_blockers_iff as' bs, blocker_rank-injective a b)
