-- ===== src/Triage/Tests.antt =====
-- The verdicts of src/triage and the transitions of src/sweep.rs on concrete inputs. A time is a
-- single byte here.
use reproit_cloud.Triage.Resolution.{
  or_zero, tally, evaluate_fix, verdict, recurrence, on_or_after, Occurrence, FirstSeen, Thresholds,
  evaluate, Clock, Resolution, active, resolved, regressed, resolution_as_str, seen_at,
}
use reproit_cloud.Triage.Status.{transition}
use reproit_cloud.Triage.Sweep.{Pass, BucketLog, sweep_all}
use reproit_cloud.Text.{text_eq, Text, lit}
use reproit_cloud.Prelude.Int.{◌≤ℤ◌, ◌-ℤ◌, ℤ, pos}
use reproit_cloud.Triage.Resolution.Verdict.{evaluate-resolved_iff, Recurs, evaluate-regressed_iff}
use reproit_cloud.Triage.Regression.{latest_post_fix_build}
use reproit_cloud.Triage.Regression.Laws.{latest_post_fix_build_iff}
use reproit_cloud.Prelude.{
  ◌≤◌, ◌≡◌, refl, ◌↔◌, Bool, true, false, Option, none, some, List, [], ◌∷◌, map,
}

abbrev read_time : Text → Option ℤ
read_time (t ∷ []) = some (pos t)
read_time _ = none

abbrev toy_clock : Clock
toy_clock = record { parse_epoch = read_time; epoch_to_rfc3339 = λ e. lit "t" }

abbrev seen : FirstSeen
seen = (lit "v1", pos 5) ∷ (lit "v2", pos 9) ∷ []

abbrev bug : List Occurrence
bug = record { at = 12 ∷ []; build = some (lit "v2") } ∷ []

abbrev thresholds : Thresholds
thresholds = record { resolve_quiet_secs = pos 3; min_post_fix_traffic = 2 }

regressed_test :
    (evaluate toy_clock bug seen (some (lit "v2")) 5 (20 ∷ []) thresholds).status ≡ regressed
unfolding evaluate evaluate_fix seen_at text_eq verdict tally recurrence on_or_after
regressed_test = refl

resolved_test :
    (evaluate toy_clock [] seen (some (lit "v2")) 5 (20 ∷ []) thresholds).status ≡ resolved
unfolding evaluate evaluate_fix seen_at text_eq verdict tally ◌-ℤ◌
resolved_test = refl

evaluate-regressed_iff_example :
    ((evaluate toy_clock bug seen (some (lit "v2")) 5 (20 ∷ []) thresholds).status ≡ regressed) ↔ (
      (f : Text) × (e : ℤ) × (some (lit "v2") ≡ some f)
      × (seen_at f seen ≡ some e)
      × Recurs toy_clock seen f e bug)
evaluate-regressed_iff_example =
    evaluate-regressed_iff toy_clock bug seen (some (lit "v2")) 5 (20 ∷ []) thresholds

evaluate-resolved_iff_example :
    ((evaluate toy_clock [] seen (some (lit "v2")) 5 (20 ∷ []) thresholds).status ≡ resolved) ↔ (
      (f : Text) × (e : ℤ) × (some (lit "v2") ≡ some f)
      × (seen_at f seen ≡ some e)
      × (¬ Recurs toy_clock seen f e [])
      × (pos 3 ≤ℤ or_zero (read_time (20 ∷ [])) -ℤ e)
      × (2 ≤ 5))
evaluate-resolved_iff_example =
    evaluate-resolved_iff toy_clock [] seen (some (lit "v2")) 5 (20 ∷ []) thresholds

abbrev pass_of : Resolution → Bool → Pass
pass_of status upsert_fails = record {
  fixed_in_build = lit "v2";
  computed = some (status, none);
  webhook = true;
  status_fails = false;
  event_fails = false;
  upsert_fails = upsert_fails;
}

-- The second pass records a change, but fails to store the status; the third records it again.
abbrev passes : List Pass
passes = pass_of active false ∷ pass_of regressed true ∷ pass_of regressed false ∷ []

abbrev watched : BucketLog
watched = record { status = some (lit "active", none); events = [] }

targets_test :
    map (λ e. e.to_status) (sweep_all passes watched).events
    ≡ lit "regressed" ∷ lit "regressed" ∷ []
unfolding sweep_all text_eq transition resolution_as_str
targets_test = refl

latest_post_fix_build_iff_example :
    ((b : Text) × (latest_post_fix_build toy_clock bug seen (lit "v2") ≡ some b))
    ↔ ((evaluate toy_clock bug seen (some (lit "v2")) 5 (20 ∷ []) thresholds).status ≡ regressed)
latest_post_fix_build_iff_example =
    latest_post_fix_build_iff toy_clock bug seen (lit "v2") 5 (20 ∷ []) thresholds
