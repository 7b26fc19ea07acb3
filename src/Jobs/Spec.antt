-- ===== src/Jobs/Spec.antt =====
-- src/jobs/mod.rs: a submitted job, its validation, and its shards. The `f64` of a shard's duration
-- is only passed on: it stands as the bits of the number, and 0.0 has the bits 0.
use reproit_cloud.Prelude.{
  leb, Result, ◌>>◌, reject, ℕ, zero, suc, Bool, not, ◌&&◌, ◌||◌, Option, none, some, List, [], ◌∷◌,
}
use reproit_cloud.Text.{Text, lit, text_eq}

abbrev pub F64 : Type 0
F64 = ℕ

pub record JobSpec : Type 0 where
  pub app_dir : Text
  pub mode : Text
  pub seeds : ℕ
  pub budget : ℕ
  pub backend : Text

abbrev pub max_job_seeds : ℕ
max_job_seeds = 1024

abbrev pub max_job_budget : ℕ
max_job_budget = 10000

pub data SpecError : Type 0 where
  seeds_out_of_range budget_out_of_range backend_unknown mode_not_fuzz : SpecError

-- `matches!(self.backend.as_str(), "web" | "android" | "ios")`
unfoldable pub is_backend : Text → Bool
is_backend backend =
    text_eq backend (lit "web") || text_eq backend (lit "android") || text_eq backend (lit "ios")

unfoldable pub validate : JobSpec → Result SpecError (Unit {0})
validate spec =
    reject (not (leb 1 spec.seeds && leb spec.seeds max_job_seeds)) seeds_out_of_range
    >> reject (not (leb 1 spec.budget && leb spec.budget max_job_budget)) budget_out_of_range
    >> reject (not (is_backend spec.backend)) backend_unknown
    >> reject (not (text_eq spec.mode (lit "fuzz"))) mode_not_fuzz

abbrev pub default_mode : Text
default_mode = lit "fuzz"

abbrev pub default_backend : Text
default_backend = lit "web"

abbrev pub default_seeds : ℕ
default_seeds = 8

abbrev pub default_budget : ℕ
default_budget = 24

-- The body of a submission, with the fields that the request left out.
pub record JobBody : Type 0 where
  pub app_dir : Text
  pub mode : Option Text
  pub seeds : Option ℕ
  pub budget : Option ℕ
  pub backend : Option Text

abbrev or_default : {A : Type 0} → A → Option A → A
or_default a none = a
or_default a (some b) = b

unfoldable pub spec_of_body : JobBody → JobSpec
spec_of_body body = record {
  app_dir = body.app_dir;
  mode = or_default default_mode body.mode;
  seeds = or_default default_seeds body.seeds;
  budget = or_default default_budget body.budget;
  backend = or_default default_backend body.backend;
}

pub data ShardState : Type 0 where
  pending running clean finding error : ShardState

pub record Shard : Type 0 where
  pub seed : ℕ
  pub state : ShardState
  pub report : Option Text
  pub duration_s : F64

pub record Job : Type 0 where
  pub id : Text
  pub spec_app_dir : Text
  pub budget : ℕ
  pub backend : Text
  pub shards : List Shard
  pub started_at : Text

abbrev pub pending_shard : ℕ → Shard
pending_shard seed = record { seed = seed; state = pending; report = none; duration_s = 0 }

-- One pending shard for each of `count` seeds from the first on.
unfoldable pub shards_from : ℕ → ℕ → List Shard
shards_from first zero = []
shards_from first (suc count) = pending_shard first ∷ shards_from (suc first) count

-- `Job::new`, with the new uuid and the time of the clock.
unfoldable pub new_job : Text → Text → JobSpec → Job
new_job uuid now spec = record {
  id = uuid;
  spec_app_dir = spec.app_dir;
  budget = spec.budget;
  backend = spec.backend;
  shards = shards_from 1 spec.seeds;
  started_at = now;
}
