-- ===== src/Triage/Sweep.antt =====
-- `sweep_bucket` of src/sweep.rs, and the statements of src/db/tenant/triage.rs that it makes, on the
-- rows of one bucket. The verdict that `compute_for_bucket` reads is an argument of each pass, and so
-- is which of the calls fail. Nothing else writes these rows but their removal with the bucket.
pub mod Log
use reproit_cloud.Prelude.{
  if◌then◌else◌, ℕ, Bool, true, false, not, ◌&&◌, Option, none, some, List, [], ◌∷◌, ◌++◌,
}
use reproit_cloud.Text.{Text, lit, text_eq}
use reproit_cloud.Triage.Resolution.{Resolution, resolution_as_str}
use reproit_cloud.Triage.Status.{transition}

-- A row of `bucket_resolution_events`.
pub record ResolutionEvent : Type 0 where
  pub from_status : Option Text
  pub to_status : Text
  pub build : Option Text

-- The status and the build of the row of `bucket_resolution_status`, if there is one, and the events
-- in the order of their ids.
pub record BucketLog : Type 0 where
  pub status : Option (Text × Option Text)
  pub events : List ResolutionEvent

-- `last_resolution_status`
abbrev pub last_resolution_status : Option (Text × Option Text) → Option Text
last_resolution_status none = none
last_resolution_status (some (status, _)) = some status

-- `record_resolution_event`
abbrev pub record_resolution_event : Option Text → Text → Option Text → BucketLog → BucketLog
record_resolution_event from_status to_status build log = record log {
  events =
      log.events
      ++ (record { from_status = from_status; to_status = to_status; build = build } ∷ []);
}

-- `upsert_resolution_status`
abbrev pub upsert_resolution_status : Text → Option Text → BucketLog → BucketLog
upsert_resolution_status status build log = record log { status = some (status, build) }

-- What a recorded change sends out: the webhook and the ticket.
pub data Notice : Type 0 where
  alert : Option Text → Text → Notice
  close_ticket : Option Text → Notice
  reopen_ticket : Option Text → Notice

-- `alert_payload`, where a webhook is configured.
abbrev pub alerts_of : Bool → Option Text → Text → List Notice
alerts_of webhook from_status to_status =
    if webhook
    then (if not (text_eq to_status (lit "regressed")) && not (text_eq to_status (lit "resolved"))
        then []
        else alert from_status to_status ∷ [])
    else []

abbrev pub tickets_of : Text → Option Text → Option Text → List Notice
tickets_of current fixed_in_build regression_build =
    if text_eq current (lit "resolved")
    then close_ticket fixed_in_build ∷ []
    else if text_eq current (lit "regressed")
    then reopen_ticket regression_build ∷ []
    else []

-- What one pass meets: the build that is said to fix the bug, the computed status with the build of a
-- regression, if it can be computed, and the calls that fail.
pub record Pass : Type 0 where
  pub fixed_in_build : Text
  pub computed : Option (Resolution × Option Text)
  pub webhook : Bool
  pub status_fails : Bool
  pub event_fails : Bool
  pub upsert_fails : Bool

-- What a pass leaves: the rows, what it sent out, and the number of events it recorded if it ended
-- without an error.
pub record Swept : Type 0 where
  pub log : BucketLog
  pub notices : List Notice
  pub recorded : Option ℕ

abbrev pub failed : BucketLog → List Notice → Swept
failed log notices = record { log = log; notices = notices; recorded = none }

-- The last statement of a pass.
abbrev pub persisted : Bool → Text → Text → BucketLog → List Notice → ℕ → Swept
persisted true current fixed_in_build log notices recorded = failed log notices
persisted false current fixed_in_build log notices recorded = record {
  log = upsert_resolution_status current (some fixed_in_build) log;
  notices = notices;
  recorded = some recorded;
}

-- The pass once it is known whether there is a change to record.
abbrev pub sweep_change :
    Pass → Text → Text → Option Text → Option (Option Text) → BucketLog → Swept
sweep_change pass fixed_in_build current regression_build none log =
    persisted pass.upsert_fails current fixed_in_build log [] 0
sweep_change pass fixed_in_build current regression_build (some from_status) log =
    if pass.event_fails
    then failed log []
    else persisted pass.upsert_fails current fixed_in_build
        (record_resolution_event from_status current (some fixed_in_build) log)
        (alerts_of pass.webhook from_status current
          ++ tickets_of current (some fixed_in_build) regression_build)
        1

abbrev pub sweep_computed : Pass → Text → Option (Resolution × Option Text) → BucketLog → Swept
sweep_computed pass fixed_in_build none log = failed log []
sweep_computed pass fixed_in_build (some (status, regression_build)) log =
    if pass.status_fails
    then failed log []
    else sweep_change pass fixed_in_build (resolution_as_str status) regression_build
        (transition (last_resolution_status log.status) (resolution_as_str status)) log

unfoldable pub sweep_bucket : Pass → BucketLog → Swept
sweep_bucket pass log = sweep_computed pass pass.fixed_in_build pass.computed log

-- One pass after another over the same bucket.
unfoldable pub sweep_all : List Pass → BucketLog → BucketLog
unfolding sweep_bucket
sweep_all [] log = log
sweep_all (pass ∷ passes) log = sweep_all passes (sweep_bucket pass log).log
