-- ===== src/Protocol/Environment.antt =====
-- protocol/src/environment.rs: the proof of an environment's minimization.
pub mod Laws
use reproit_cloud.Text.Compare.{text_ord}
use reproit_cloud.Prelude.{
  ltb, ◌==◌, if◌then◌else◌, Result, ok, ◌>>=◌, ◌>>◌, reject, each, length, is_empty, any, ℕ, ◌+◌,
  ◌-◌, ◌*◌, ◌^◌, Bool, true, false, not, ◌&&◌, ◌||◌, Option, none, some, List, [], ◌∷◌,
}
use reproit_cloud.Prelude.Order.{contains, set_insert}
use reproit_cloud.Text.{Text, text_eq}
use reproit_cloud.Protocol.Errors.{
  ProtocolError, Checked, unsupported_version, batch_too_large, invalid_event, invalid_sequence,
  new,
}

abbrev pub environment_envelope_version : ℕ
environment_envelope_version = 1

abbrev pub max_environment_trials : ℕ
max_environment_trials = 4096

abbrev pub max_environment_text_bytes : ℕ
max_environment_text_bytes = 16 * 1024

abbrev pub u32_max : ℕ
u32_max = 2 ^ 32 - 1

pub data EnvironmentOutcome : Type 0 where
  reproduces does_not_reproduce abstain : EnvironmentOutcome

pub record EnvironmentTrial : Type 0 where
  pub dimension : Text
  pub baseline : Text
  pub candidate : Option Text
  pub outcome : EnvironmentOutcome
  pub reason : Text
  pub replay_attempts : ℕ

pub record EnvironmentEnvelope : Type 0 where
  pub version : ℕ
  pub complete : Bool
  pub replay_attempts : ℕ
  pub relaxed_dimensions : List Text
  pub trials : List EnvironmentTrial

pub record EnvironmentProof : Type 0 where
  pub captured : List (Text × Text)
  pub envelope : EnvironmentEnvelope

-- `EnvironmentEnvelope::default`
abbrev pub default_envelope : EnvironmentEnvelope
default_envelope = record {
  version = environment_envelope_version;
  complete = false;
  replay_attempts = 0;
  relaxed_dimensions = [];
  trials = [];
}

-- `captured.get(key)`
unfoldable pub get : Text → List (Text × Text) → Option Text
get key [] = none
get key ((k, v) ∷ entries) = if text_eq k key then some v else get key entries

abbrev is_some : Option Text → Bool
is_some none = false
is_some (some v) = true

abbrev is_text : Option Text → Text → Bool
is_text none expected = false
is_text (some v) expected = text_eq v expected

abbrev is_long : Option Text → Bool
is_long none = false
is_long (some v) = ltb max_environment_text_bytes (length v)

abbrev pub is_reproducing : EnvironmentOutcome → Bool
is_reproducing reproduces = true
is_reproducing _ = false

-- The outcome's own minimum of replays is missed.
abbrev pub lacks_replays : EnvironmentOutcome → ℕ → Bool
lacks_replays reproduces attempts = attempts == 0
lacks_replays does_not_reproduce attempts = ltb attempts 2
lacks_replays abstain attempts = false

-- `value.saturating_add(1)` on `u32`
abbrev pub saturating_suc : ℕ → ℕ
saturating_suc n = if ltb n u32_max then n + 1 else u32_max

-- The conditions on one trial, with the dimensions of the trials before it.
unfoldable pub validate_trial : List (Text × Text) → List Text → EnvironmentTrial → Checked
validate_trial captured dimensions trial = do
  reject
      (not (is_some (get trial.dimension captured))
        || contains dimensions trial.dimension
        || ltb max_environment_text_bytes (length trial.dimension)
        || ltb max_environment_text_bytes (length trial.baseline)
        || is_long trial.candidate
        || ltb max_environment_text_bytes (length trial.reason)
        || not (is_text (get trial.dimension captured) trial.baseline))
      (new invalid_event)
  reject (lacks_replays trial.outcome trial.replay_attempts) (new invalid_sequence)

-- The loop over the trials; its value is the number of attempts that they record.
unfoldable pub validate_trials :
    List (Text × Text) → List Text → ℕ → List EnvironmentTrial → Result ProtocolError ℕ
validate_trials captured dimensions recorded [] = ok recorded
validate_trials captured dimensions recorded (trial ∷ trials) =
    let rest =
      validate_trials captured (set_insert trial.dimension dimensions)
        (recorded + trial.replay_attempts) trials in
    validate_trial captured dimensions trial >>= λ _. rest

abbrev relaxes : Text → EnvironmentTrial → Bool
relaxes dimension trial = text_eq trial.dimension dimension && is_reproducing trial.outcome

unfoldable pub valid_attempts : Bool → ℕ → ℕ → Bool
valid_attempts true attempts recorded = attempts == saturating_suc recorded
valid_attempts false attempts recorded = attempts == recorded || attempts == saturating_suc recorded

unfoldable pub validate_envelope : EnvironmentEnvelope → List (Text × Text) → Checked
unfolding valid_attempts
validate_envelope e captured = do
  reject (not (e.version == environment_envelope_version)) (new unsupported_version)
  reject (ltb max_environment_trials (length e.trials)) (new batch_too_large)
  reject (not e.complete && not (is_empty e.relaxed_dimensions)) (new invalid_event)
  recorded ← validate_trials captured [] 0 e.trials
  reject (not (valid_attempts e.complete e.replay_attempts recorded)) (new invalid_sequence)
  each (λ dimension. reject (not (any (relaxes dimension) e.trials)) (new invalid_event))
      e.relaxed_dimensions

unfoldable pub validate_proof : EnvironmentProof → Checked
validate_proof p = validate_envelope p.envelope p.captured
