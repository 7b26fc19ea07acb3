-- ===== src/Protocol/Environment/Laws.antt =====
-- Which environment proofs are accepted, and that their count of attempts does not overflow.
use reproit_cloud.Protocol.Errors.{new, invalid_event}
use reproit_cloud.Protocol.Environment.{
  valid_attempts, validate_envelope, EnvironmentOutcome, reproduces, does_not_reproduce, abstain,
  EnvironmentTrial, EnvironmentEnvelope, get, is_text, is_long, lacks_replays, validate_trial,
  validate_trials, relaxes,
}
use reproit_cloud.Prelude.Order.Distinct.{FreshFrom-nil_iff, Distinct, FreshFrom}
use reproit_cloud.Prelude.{
  Bool-cases, ok, reject, each, IsOk, All, Within, each-IsOk, All-iff, length, is_empty, any, ℕ,
  ◌+◌, ◌*◌, ◌≤◌, ◌<◌, ◌≡◌, refl, ◌↔◌, ◌⊎◌, inl, inr, Bool, true, false, not, ◌&&◌, Option, none,
  some, List, [], ◌∷◌, arith, Result-split,
}
use reproit_cloud.Prelude.Order.{contains, set_insert}
use reproit_cloud.Text.{Text}
use reproit_cloud.Text.Compare.{text_ord, text_eq_iff}

pub record IsTrial (captured : List (Text × Text)) (t : EnvironmentTrial) : Type 0 where
  pub baseline : get t.dimension captured ≡ some t.baseline
  pub dimension_short : length t.dimension ≤ 16384
  pub baseline_short : length t.baseline ≤ 16384
  pub candidate_short : Within (λ v. length v ≤ 16384) t.candidate
  pub reason_short : length t.reason ≤ 16384
  pub replayed : t.outcome ≡ reproduces → 1 ≤ t.replay_attempts
  pub replayed_twice : t.outcome ≡ does_not_reproduce → 2 ≤ t.replay_attempts

is_text-eq : (o : Option Text) (v : Text) → (is_text o v ≡ true) ↔ (o ≡ some v)
is_text-eq none v = ((λ h. cc), (λ h. cc))
is_text-eq (some u) v = ground (arith, text_eq_iff u v)

is_long_iff : (o : Option Text) → (is_long o ≡ false) ↔ Within (λ v. length v ≤ 16384) o
is_long_iff none = ((λ _. tt), (λ _. refl))
is_long_iff (some v) = ground arith

lacks_replays_iff :
    (outcome : EnvironmentOutcome) (n : ℕ)
    → (lacks_replays outcome n ≡ false)
      ↔ ((outcome ≡ reproduces → 1 ≤ n) × (outcome ≡ does_not_reproduce → 2 ≤ n))
lacks_replays_iff reproduces n =
    ((λ h. ((λ _. ground arith), (λ e. cc))), (λ (a, b). ground (arith, a refl)))
lacks_replays_iff does_not_reproduce n =
    ((λ h. ((λ e. cc), (λ _. ground arith))), (λ (a, b). ground (arith, b refl)))
lacks_replays_iff abstain n = ((λ h. ((λ e. cc), (λ e. cc))), (λ _. refl))

validate_trial-IsOk :
    (captured : List (Text × Text)) (dimensions : List Text) (t : EnvironmentTrial)
    → IsOk (validate_trial captured dimensions t)
      ↔ (IsTrial captured t × (contains dimensions t.dimension ≡ false))
unfolding validate_trial
validate_trial-IsOk captured dimensions t =
    let (same, same') = is_text-eq (get t.dimension captured) t.baseline in
    let (long, long') = is_long_iff t.candidate in
    let (replay, replay') = lacks_replays_iff t.outcome t.replay_attempts in
    (
      (λ h. (
        record {
          baseline = same (ground arith);
          dimension_short = ground arith;
          baseline_short = ground arith;
          candidate_short = long (ground arith);
          reason_short = ground arith;
          replayed = (replay (ground arith)).0;
          replayed_twice = (replay (ground arith)).1;
        },
        ground arith,
      )),
      (λ (v, fresh). ground (
        arith,
        same' v.baseline,
        v.baseline,
        long' v.candidate_short,
        replay' (v.replayed, v.replayed_twice),
        v.dimension_short,
        v.baseline_short,
        v.reason_short,
      )),
    )

abbrev pub dimensions_of : List EnvironmentTrial → List Text
dimensions_of [] = []
dimensions_of (t ∷ ts) = t.dimension ∷ dimensions_of ts

-- The replays that the trials record.
abbrev pub total : List EnvironmentTrial → ℕ
total [] = 0
total (t ∷ ts) = t.replay_attempts + total ts

validate_trials-ok :
    (captured : List (Text × Text)) (dimensions : List Text) (n r : ℕ) (ts : List EnvironmentTrial)
    → (validate_trials captured dimensions n ts ≡ ok r)
      ↔ (All (IsTrial captured) ts × FreshFrom dimensions (dimensions_of ts) × (n + total ts ≡ r))
unfolding validate_trials
validate_trials-ok captured dimensions n r [] =
    ((λ h. (tt, tt, ground arith)), (λ (_, _, e). ground arith))
validate_trials-ok captured dimensions n r (t ∷ ts) =
    let (to, from) =
      validate_trials-ok captured (set_insert t.dimension dimensions) (n + t.replay_attempts) r
        ts in
    let (split, merge) = validate_trial-IsOk captured dimensions t in
    (
      (λ h.
          let (v, fresh) = split (ground arith) in
          let (vs, rest, sum) = to (ground arith) in ((v, vs), (fresh, rest), omega arith)),
      (λ ((v, vs), (fresh, rest), sum).
          ground (arith, merge (v, fresh), from (vs, rest, omega arith))),
    )

-- Some trial of the dimension reproduces.
abbrev pub Reproduced : Text → List EnvironmentTrial → Type 0
Reproduced dimension [] = ⊥
Reproduced dimension (t ∷ ts) =
    ((t.dimension ≡ dimension) × (t.outcome ≡ reproduces)) ⊎ Reproduced dimension ts

any-relaxes :
    (dimension : Text) (ts : List EnvironmentTrial)
    → (any (relaxes dimension) ts ≡ true) ↔ Reproduced dimension ts
any-relaxes dimension [] = ((λ h. cc), (λ h. absurd h))
any-relaxes dimension (t ∷ ts) =
    let (to, from) = any-relaxes dimension ts in
    let (same, same') = text_eq_iff t.dimension dimension in
    (
      (λ h. elim (Bool-cases (relaxes dimension t)) [
        | inl e ↦ inl (same (ground arith), ground arith)
        | inr e ↦ inr (to (ground arith))
      ]),
      (λ h. elim h [ inl (e, f) ↦ ground (arith, same' e) | inr k ↦ ground (arith, from k) ]),
    )

pub record IsEnvelope (e : EnvironmentEnvelope) (captured : List (Text × Text)) : Type 0 where
  pub version : e.version ≡ 1
  pub few : length e.trials ≤ 4096
  pub trials : All (IsTrial captured) e.trials
  pub distinct : Distinct (dimensions_of e.trials)
  pub complete : e.complete ≡ true → e.replay_attempts ≡ total e.trials + 1
  pub partial :
      e.complete ≡ false
      → (e.relaxed_dimensions ≡ [])
        × ((e.replay_attempts ≡ total e.trials) ⊎ (e.replay_attempts ≡ total e.trials + 1))
  pub relaxed : All (λ d. Reproduced d e.trials) e.relaxed_dimensions

-- The attempts of a trial are a `u16`.
abbrev pub IsU16 : EnvironmentTrial → Type 0
IsU16 t = t.replay_attempts < 65536

total-le : (ts : List EnvironmentTrial) → All IsU16 ts → total ts ≤ 65535 * length ts
total-le [] h = omega arith
total-le (t ∷ ts) (h, hs) = omega (arith, total-le ts hs)

-- The sum of the attempts fits a `u32`, so neither the sum nor its successor saturates.
pub total-lt-u32_max :
    (ts : List EnvironmentTrial) → All IsU16 ts → length ts ≤ 4096 → total ts < 4294967295
total-lt-u32_max ts h k = omega (arith, total-le ts h)

attempts_iff :
    (complete : Bool) (attempts recorded : ℕ)
    → recorded < 4294967295
    → (valid_attempts complete attempts recorded ≡ true) ↔ (
        (complete ≡ true → attempts ≡ recorded + 1)
        × (complete ≡ false → (attempts ≡ recorded) ⊎ (attempts ≡ recorded + 1)))
unfolding valid_attempts
attempts_iff true attempts recorded h =
    ((λ e. ((λ _. ground arith), (λ f. cc))), (λ (a, b). ground (arith, a refl)))
attempts_iff false attempts recorded h =
    ((λ e. ((λ f. cc), (λ _. ground arith))), (λ (a, b). ground (arith, b refl)))

relaxed_iff :
    (e : EnvironmentEnvelope)
    → IsOk (
        each
          (λ d. reject (not (any (relaxes d) e.trials)) (new invalid_event))
          e.relaxed_dimensions)
      ↔ All (λ d. Reproduced d e.trials) e.relaxed_dimensions
relaxed_iff e =
    let (to, from) =
      each-IsOk (λ d. reject (not (any (relaxes d) e.trials)) (new invalid_event))
        e.relaxed_dimensions in
    let (there, back) = All-iff one e.relaxed_dimensions in
    ((λ h. there (to h)), (λ h. from (back h)))
  where
    one :
        (d : Text)
        → IsOk (reject (not (any (relaxes d) e.trials)) (new invalid_event)) ↔ Reproduced d e.trials
    one d =
        let (to, from) = any-relaxes d e.trials in
        ((λ h. to (ground arith)), (λ r. ground (arith, from r)))

validate_envelope_sound :
    (e : EnvironmentEnvelope) (captured : List (Text × Text))
    → All IsU16 e.trials
    → IsOk (validate_envelope e captured)
    → IsEnvelope e captured
unfolding validate_envelope
validate_envelope_sound e captured u h =
    elim (Result-split (validate_trials captured [] 0 e.trials)) [
      | inr (x, failed) ↦ absurd (ground arith)
      | inl (r, passed) ↦
          let (trials, fresh, sum) = (validate_trials-ok captured [] 0 r e.trials).0 passed in
          let few : length e.trials ≤ 4096 = ground arith in
          let bound = total-lt-u32_max e.trials u few in
          let (done, open') =
            (attempts_iff e.complete e.replay_attempts (total e.trials) bound).0 (ground arith) in
          record {
            version = ground arith;
            few = few;
            trials = trials;
            distinct = (FreshFrom-nil_iff (dimensions_of e.trials)).0 fresh;
            complete = done;
            partial = λ c. (unrelaxed e.complete e.relaxed_dimensions c (ground arith), open' c);
            relaxed = (relaxed_iff e).0 (ground arith);
          }
    ]
  where
    unrelaxed :
        (c : Bool) (ds : List Text) → c ≡ false → (not c && not (is_empty ds)) ≡ false → ds ≡ []
    unrelaxed c [] k h' = refl
    unrelaxed c (d ∷ ds) k h' = absurd (ground arith)

validate_envelope_complete :
    (e : EnvironmentEnvelope) (captured : List (Text × Text))
    → All IsU16 e.trials
    → IsEnvelope e captured
    → IsOk (validate_envelope e captured)
unfolding validate_envelope
validate_envelope_complete e captured u v =
    let fresh = (FreshFrom-nil_iff (dimensions_of e.trials)).1 v.distinct in
    let sum =
      (validate_trials-ok captured [] 0 (total e.trials) e.trials).1
        (v.trials, fresh, omega arith) in
    let attempts =
      (attempts_iff e.complete e.replay_attempts (total e.trials)
          (total-lt-u32_max e.trials u v.few)).1
        (v.complete, λ c. (v.partial c).1) in
    let relaxed = (relaxed_iff e).1 v.relaxed in
    rw sum (
      ground (
        arith,
        v.version,
        v.few,
        attempts,
        relaxed,
        unrelaxed e.complete e.relaxed_dimensions (λ c. (v.partial c).0),
      ))
  where
    unrelaxed :
        (c : Bool) (ds : List Text) → (c ≡ false → ds ≡ []) → (not c && not (is_empty ds)) ≡ false
    unrelaxed true ds h = refl
    unrelaxed false ds h = rw (h refl)

-- Where the attempts of trials are `u16`, an envelope is accepted exactly when its version is 1, it has
-- at most 4096 trials, their dimensions are distinct, each has the captured baseline of its dimension,
-- texts of at most 16384 bytes and its minimum of replays, the attempts of a complete envelope are one
-- more than those of its trials, an incomplete one has as many or one more and relaxes nothing, and each
-- relaxed dimension has a reproducing trial.
pub validate_envelope-IsOk :
    (e : EnvironmentEnvelope) (captured : List (Text × Text))
    → All IsU16 e.trials
    → IsOk (validate_envelope e captured) ↔ IsEnvelope e captured
validate_envelope-IsOk e captured u =
    (validate_envelope_sound e captured u, validate_envelope_complete e captured u)
