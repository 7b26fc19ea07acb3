-- ===== src/Protocol/Ledger/Promotion.antt =====
-- When a ledger is confirmed, and what blocks it.
use reproit_cloud.Prelude.{
  IsOk, is_empty, ◌≡◌, refl, sym, ◌∙◌, ◌≢◌, ◌↔◌, Bool, true, false, List, [], ◌∷◌, arith,
}
use reproit_cloud.Prelude.Order.{contains, is_strictly_sorted}
use reproit_cloud.Protocol.Ledger.Order.{
  EvaluationStatus, satisfied, violation, abstain, AuthoritySource, ConfirmationStatus, reproduced,
  MinimizationStatus, preserved, PromotionStatus, confirmed, PromotionBlocker, missing_authority,
  no_violation, evaluation_abstained, replay_not_reproduced, replay_identity_mismatch,
  minimization_not_preserved, blocker_ord, same_promotion, same_blockers_iff,
}
use reproit_cloud.Protocol.Ledger.{ProofLedger, derive_blockers, derive_promotion, validate_ledger}

-- Every stage of the proof is there.
pub record IsComplete (authority : List AuthoritySource) (evaluation : EvaluationStatus)
    (confirmation : ConfirmationStatus) (matched : Bool) (minimization : MinimizationStatus)
    : Type 0 where
  pub backed : authority ≢ []
  pub violated : evaluation ≡ violation
  pub replayed : confirmation ≡ reproduced
  pub identified : matched ≡ true
  pub minimized : minimization ≡ preserved

-- The stage that a blocker names is missing.
abbrev pub Blocks :
    List AuthoritySource
    → EvaluationStatus
    → ConfirmationStatus
    → Bool
    → MinimizationStatus
    → PromotionBlocker
    → Type 0
Blocks authority evaluation confirmation matched minimization missing_authority = authority ≡ []
Blocks authority evaluation confirmation matched minimization no_violation = evaluation ≡ satisfied
Blocks authority evaluation confirmation matched minimization evaluation_abstained =
    evaluation ≡ abstain
Blocks authority evaluation confirmation matched minimization replay_not_reproduced =
    confirmation ≢ reproduced
Blocks authority evaluation confirmation matched minimization replay_identity_mismatch =
    matched ≡ false
Blocks authority evaluation confirmation matched minimization minimization_not_preserved =
    minimization ≢ preserved

not_empty :
    (bs : List PromotionBlocker) (b : PromotionBlocker) → contains bs b ≡ true → is_empty bs ≡ false
unfolding contains
not_empty [] b h = cc
not_empty (x ∷ bs) b h = refl

empty_of_free :
    (bs : List PromotionBlocker)
    → ((b : PromotionBlocker) → contains bs b ≢ true)
    → is_empty bs ≡ true
unfolding contains
empty_of_free [] h = refl
empty_of_free (x ∷ bs) h = absurd (ground (arith, h x))

module _ (authority : List AuthoritySource) (evaluation : EvaluationStatus)
    (confirmation : ConfirmationStatus) (matched : Bool) (minimization : MinimizationStatus) where
  -- A blocker is derived exactly when the stage that it names is missing.
  pub derive_blockers_iff :
      (b : PromotionBlocker)
      → (contains (derive_blockers authority evaluation confirmation matched minimization) b ≡ true)
        ↔ Blocks authority evaluation confirmation matched minimization b
  unfolding derive_blockers contains
  derive_blockers_iff missing_authority = ground arith
  derive_blockers_iff _ = ground arith

  -- The derived blockers are in order, without repetitions.
  pub derive_blockers-is_strictly_sorted :
      is_strictly_sorted (derive_blockers authority evaluation confirmation matched minimization)
      ≡ true
  unfolding derive_blockers is_strictly_sorted
  derive_blockers-is_strictly_sorted = ground arith

  -- No evaluation but a violation leaves the ledger without a blocker.
  IsComplete-of_unblocked :
      ((b : PromotionBlocker) → ¬ Blocks authority evaluation confirmation matched minimization b)
      → IsComplete authority evaluation confirmation matched minimization
  IsComplete-of_unblocked free = record {
    backed = free missing_authority;
    violated = evaluated evaluation (free no_violation) (free evaluation_abstained);
    replayed = ground (arith, free replay_not_reproduced);
    identified = ground (arith, free replay_identity_mismatch);
    minimized = ground (arith, free minimization_not_preserved);
  }
    where
      evaluated : (e : EvaluationStatus) → e ≢ satisfied → e ≢ abstain → e ≡ violation
      evaluated e h k = ground arith

  unblocked_of_complete :
      IsComplete authority evaluation confirmation matched minimization
      → (b : PromotionBlocker)
      → contains (derive_blockers authority evaluation confirmation matched minimization) b ≢ true
  unblocked_of_complete c b k = free b ((derive_blockers_iff b).0 k)
    where
      free :
          (b : PromotionBlocker) → ¬ Blocks authority evaluation confirmation matched minimization b
      free missing_authority h = c.backed h
      free no_violation h = ground arith
      free evaluation_abstained h = ground arith
      free replay_not_reproduced h = h c.replayed
      free replay_identity_mismatch h = ground arith
      free minimization_not_preserved h = h c.minimized

  -- The stages derive a confirmation exactly when all five of them are there.
  pub derive_promotion-confirmed_iff :
      ((derive_promotion authority evaluation confirmation matched minimization).0 ≡ confirmed)
      ↔ IsComplete authority evaluation confirmation matched minimization
  unfolding derive_promotion
  derive_promotion-confirmed_iff = (
    (λ h.
        IsComplete-of_unblocked
          (λ b k. ground (arith, not_empty _ b ((derive_blockers_iff b).1 k)))),
    (λ c. ground (arith, empty_of_free _ (unblocked_of_complete c))),
  )

-- What `validate` accepts: the promotion is that of the stages.
pub validate_ledger-promotion :
    (l : ProofLedger)
    → IsOk (validate_ledger l)
    → (l.promotion
        ≡ (derive_promotion l.authority l.evaluation l.confirmation l.replay_identity_matched
            l.minimization).0)
      × (l.blockers
          ≡ (derive_promotion l.authority l.evaluation l.confirmation l.replay_identity_matched
              l.minimization).1)
unfolding validate_ledger
validate_ledger-promotion l h =
    (same_promotion-eq _ _ (ground arith), (same_blockers_iff _ _).0 (ground arith))
  where
    same_promotion-eq : (p q : PromotionStatus) → same_promotion p q ≡ true → p ≡ q
    same_promotion-eq p q k = ground arith

-- A ledger that is accepted is confirmed exactly when its stages are complete.
pub validate_ledger-confirmed_iff :
    (l : ProofLedger)
    → IsOk (validate_ledger l)
    → (l.promotion ≡ confirmed)
      ↔ IsComplete l.authority l.evaluation l.confirmation l.replay_identity_matched l.minimization
validate_ledger-confirmed_iff l h =
    let (to, from) =
      derive_promotion-confirmed_iff l.authority l.evaluation l.confirmation
        l.replay_identity_matched l.minimization in
    let same = (validate_ledger-promotion l h).0 in ((λ e. to (sym same ∙ e)), (λ c. same ∙ from c))
