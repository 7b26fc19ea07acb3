-- ===== src/Triage/Sweep/Log.antt =====
-- The events that the sweep of src/sweep.rs records of a bucket follow its status.
use reproit_cloud.Prelude.{◌≡◌, ◌≢◌, ◌⊎◌, some, List, [], ◌∷◌, ◌++◌}
use reproit_cloud.Text.{Text}
use reproit_cloud.Triage.Resolution.{Resolution}
use reproit_cloud.Triage.Sweep.{BucketLog, ResolutionEvent, last_resolution_status}

-- The events lead from one stored status to another: each starts at the status that is stored when it
-- is recorded and names another, and behind it either its target is stored or, where storing failed,
-- still the status it started from.
abbrev pub Leads : Text → List ResolutionEvent → Text → Type 0
Leads from [] to = from ≡ to
Leads from (e ∷ events) to =
    (e.from_status ≡ some from)
    × ((from ≢ e.to_status) × (Leads e.to_status events to ⊎ Leads from events to))

-- What follows a stored status: the stored status and the new events.
pub record Follows (before : BucketLog) (from : Text) (after : BucketLog) : Type 0 where
  pub to : Text
  pub news : List ResolutionEvent
  pub stored : last_resolution_status after.status ≡ some to
  pub events : after.events ≡ before.events ++ news
  pub leads : Leads from news to
