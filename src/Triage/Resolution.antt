-- ===== src/Triage/Resolution.antt =====
-- src/triage/resolution.rs: what production shows of a claimed fix. The time formats of `chrono`
-- are the parameter `Clock`.
pub mod Verdict
use reproit_cloud.Prelude.{
  ltb, leb, if◌then◌else◌, ℕ, suc, ◌+◌, ◌*◌, Bool, false, ◌&&◌, ◌||◌, Option, none, some, List, [],
  ◌∷◌,
}
use reproit_cloud.Prelude.Int.{ℤ, pos, le_int, ◌-ℤ◌, max_int, min_int}
use reproit_cloud.Text.{Text, lit, text_eq}

abbrev pub default_resolve_quiet_secs : ℤ
default_resolve_quiet_secs = pos (72 * 3600)

abbrev pub default_min_post_fix_traffic : ℕ
default_min_post_fix_traffic = 50

pub data Resolution : Type 0 where
  active resolving resolved regressed : Resolution

unfoldable pub resolution_as_str : Resolution → Text
resolution_as_str active = lit "active"
resolution_as_str resolving = lit "resolving"
resolution_as_str resolved = lit "resolved"
resolution_as_str regressed = lit "regressed"

pub record Thresholds : Type 0 where
  pub resolve_quiet_secs : ℤ
  pub min_post_fix_traffic : ℕ

-- `Thresholds::default`
abbrev pub default_thresholds : Thresholds
default_thresholds = record {
  resolve_quiet_secs = default_resolve_quiet_secs;
  min_post_fix_traffic = default_min_post_fix_traffic;
}

pub record Outcome : Type 0 where
  pub status : Resolution
  pub fixed_in_build : Option Text
  pub last_seen_on_fixed_build : Option Text
  pub post_fix_occurrences : ℕ

pub record Occurrence : Type 0 where
  pub at : Text
  pub build : Option Text

-- The map from builds to epochs.
abbrev pub FirstSeen : Type 0
FirstSeen = List (Text × ℤ)

-- What the source uses of `chrono`: RFC 3339 to an epoch, and back.
pub record Clock : Type 0 where
  pub parse_epoch : Text → Option ℤ
  pub epoch_to_rfc3339 : ℤ → Text

-- `first_seen.get(build)`
unfoldable pub seen_at : Text → FirstSeen → Option ℤ
seen_at build [] = none
seen_at build ((b, e) ∷ entries) = if text_eq b build then some e else seen_at build entries

-- `entry(build).and_modify(min).or_insert(epoch)`
unfoldable pub note_first : Text → ℤ → FirstSeen → FirstSeen
note_first build epoch [] = (build, epoch) ∷ []
note_first build epoch ((b, e) ∷ entries) =
    let later = (b, e) ∷ note_first build epoch entries in
    if text_eq b build then (b, min_int e epoch) ∷ entries else later

abbrev note_stamp : Option Text → Option ℤ → FirstSeen → FirstSeen
note_stamp none epoch seen = seen
note_stamp (some build) none seen = seen
note_stamp (some build) (some epoch) seen = note_first build epoch seen

-- A build is the fixed one, or was first seen at the fix or later.
unfoldable pub on_or_after : FirstSeen → Text → ℤ → Text → Bool
on_or_after seen fixed fix_epoch build =
    text_eq build fixed
    || elim (seen_at build seen) [ none ↦ false | some first ↦ le_int fix_epoch first ]

abbrev pub stamped : Option Text → Option ℤ → Option (Text × ℤ)
stamped none epoch = none
stamped (some build) none = none
stamped (some build) (some epoch) = some (build, epoch)

abbrev pub after_fix : FirstSeen → Text → ℤ → Option (Text × ℤ) → Option ℤ
after_fix seen fixed fix_epoch none = none
after_fix seen fixed fix_epoch (some (build, epoch)) =
    if on_or_after seen fixed fix_epoch build && le_int fix_epoch epoch then some epoch else none

abbrev pub builds_of : List (Occurrence × ℕ) → List Occurrence
builds_of [] = []
builds_of ((o, count) ∷ rest) = o ∷ builds_of rest

-- `last_seen_epoch.map_or(epoch, |m| m.max(epoch))`
abbrev pub later_of : Option ℤ → ℤ → ℤ
later_of none epoch = epoch
later_of (some m) epoch = max_int m epoch

abbrev pub tally_one : ℕ × Option ℤ → Option ℤ → ℕ × Option ℤ
tally_one (count, last) none = (count, last)
tally_one (count, last) (some epoch) = (count + 1, some (later_of last epoch))

abbrev pub or_zero : Option ℤ → ℤ
or_zero none = pos 0
or_zero (some e) = e

module _ (clock : Clock) where
  open clock use {parse_epoch, epoch_to_rfc3339}

  unfoldable pub note_all : FirstSeen → List Occurrence → FirstSeen
  note_all seen [] = seen
  note_all seen (o ∷ os) = note_all (note_stamp o.build (parse_epoch o.at) seen) os

  unfoldable pub first_seen_by_build : List Occurrence → FirstSeen
  unfolding note_all
  first_seen_by_build os = note_all [] os

  -- The epoch of an occurrence behind the fix.
  unfoldable pub recurrence : FirstSeen → Text → ℤ → Occurrence → Option ℤ
  recurrence seen fixed fix_epoch o =
      after_fix seen fixed fix_epoch (stamped o.build (parse_epoch o.at))

  unfoldable pub count_after : FirstSeen → Text → ℤ → List Occurrence → ℕ
  count_after seen fixed fix_epoch [] = 0
  count_after seen fixed fix_epoch (o ∷ os) =
      let rest = count_after seen fixed fix_epoch os in
      elim (recurrence seen fixed fix_epoch o) [ none ↦ rest | some e ↦ suc rest ]

  unfoldable pub post_fix_traffic : List Occurrence → Text → ℕ
  unfolding first_seen_by_build count_after
  post_fix_traffic stream fixed = elim (seen_at fixed (first_seen_by_build stream)) [
    | none ↦ 0
    | some fix_epoch ↦ count_after (first_seen_by_build stream) fixed fix_epoch stream
  ]

  unfoldable pub sum_after : FirstSeen → Text → ℤ → List (Occurrence × ℕ) → ℕ
  sum_after seen fixed fix_epoch [] = 0
  sum_after seen fixed fix_epoch ((o, count) ∷ rest) =
      let sum = sum_after seen fixed fix_epoch rest in
      elim (recurrence seen fixed fix_epoch o) [ none ↦ sum | some e ↦ count + sum ]

  unfoldable pub post_fix_build_traffic : List (Occurrence × ℕ) → Text → ℕ
  unfolding first_seen_by_build sum_after
  post_fix_build_traffic builds fixed =
      elim (seen_at fixed (first_seen_by_build (builds_of builds))) [
        | none ↦ 0
        | some fix_epoch ↦ sum_after (first_seen_by_build (builds_of builds)) fixed fix_epoch builds
      ]

  -- The loop of `evaluate`: the count of recurrences and the last one.
  unfoldable pub tally : FirstSeen → Text → ℤ → ℕ × Option ℤ → List Occurrence → ℕ × Option ℤ
  tally seen fixed fix_epoch state [] = state
  tally seen fixed fix_epoch state (o ∷ os) =
      tally seen fixed fix_epoch (tally_one state (recurrence seen fixed fix_epoch o)) os

  abbrev map_epoch : Option ℤ → Option Text
  map_epoch none = none
  map_epoch (some e) = some (epoch_to_rfc3339 e)

  -- `evaluate` once the loop is done.
  unfoldable pub verdict : Text → ℤ → ℕ × Option ℤ → ℕ → Text → Thresholds → Outcome
  verdict fixed fix_epoch (count, last) traffic now th =
      if ltb 0 count
      then record {
        status = regressed;
        fixed_in_build = some fixed;
        last_seen_on_fixed_build = map_epoch last;
        post_fix_occurrences = count;
      }
      else record {
        status =
            if le_int th.resolve_quiet_secs (or_zero (parse_epoch now) -ℤ fix_epoch)
              && leb th.min_post_fix_traffic traffic
            then resolved
            else resolving;
        fixed_in_build = some fixed;
        last_seen_on_fixed_build = none;
        post_fix_occurrences = 0;
      }

  -- `evaluate` of a claimed fix, with the first appearance of its build.
  unfoldable pub evaluate_fix :
      List Occurrence → FirstSeen → Text → Option ℤ → ℕ → Text → Thresholds → Outcome
  evaluate_fix bug seen fixed none traffic now th = record {
    status = resolving;
    fixed_in_build = some fixed;
    last_seen_on_fixed_build = none;
    post_fix_occurrences = 0;
  }
  evaluate_fix bug seen fixed (some fix_epoch) traffic now th =
      verdict fixed fix_epoch (tally seen fixed fix_epoch (0, none) bug) traffic now th

  unfoldable pub evaluate :
      List Occurrence → FirstSeen → Option Text → ℕ → Text → Thresholds → Outcome
  evaluate bug seen none traffic now th = record {
    status = active;
    fixed_in_build = none;
    last_seen_on_fixed_build = none;
    post_fix_occurrences = 0;
  }
  evaluate bug seen (some fixed) traffic now th =
      evaluate_fix bug seen fixed (seen_at fixed seen) traffic now th
