-- ===== src/Triage/Regression.antt =====
-- src/sweep.rs: the build that the notification of a regression names.
pub mod Laws
use reproit_cloud.Prelude.Int.{ℤ, le_int}
use reproit_cloud.Triage.Resolution.{Clock, FirstSeen, Occurrence, seen_at, stamped}
use reproit_cloud.Text.{Text, text_eq}
use reproit_cloud.Prelude.{if◌then◌else◌, ◌&&◌, ◌||◌, Option, none, some, List, [], ◌∷◌}

-- `max_by_key` keeps the last of the greatest.
abbrev pub later_one : Option (ℤ × Text) → Option (ℤ × Text) → Option (ℤ × Text)
later_one best none = best
later_one none (some found) = some found
later_one (some best) (some found) = if le_int best.0 found.0 then some found else some best

abbrev pub build_of : Option (ℤ × Text) → Option Text
build_of none = none
build_of (some (epoch, build)) = some build

-- The condition on an occurrence with a build and an epoch.
unfoldable pub found_after : FirstSeen → Text → ℤ → Option (Text × ℤ) → Option (ℤ × Text)
found_after seen fixed fix_epoch none = none
found_after seen fixed fix_epoch (some (build, epoch)) = elim (seen_at build seen) [
  | none ↦ none
  | some build_epoch ↦
      if le_int fix_epoch epoch && (text_eq build fixed || le_int fix_epoch build_epoch)
      then some (epoch, build)
      else none
]

module _ (clock : Clock) where
  open clock use {parse_epoch}

  unfoldable pub latest_after :
      FirstSeen → Text → ℤ → Option (ℤ × Text) → List Occurrence → Option (ℤ × Text)
  latest_after seen fixed fix_epoch best [] = best
  latest_after seen fixed fix_epoch best (o ∷ os) =
      latest_after seen fixed fix_epoch
        (later_one best (found_after seen fixed fix_epoch (stamped o.build (parse_epoch o.at)))) os

  unfoldable pub latest_post_fix_build : List Occurrence → FirstSeen → Text → Option Text
  latest_post_fix_build bug seen fixed = elim (seen_at fixed seen) [
    | none ↦ none
    | some fix_epoch ↦ build_of (latest_after seen fixed fix_epoch none bug)
  ]
