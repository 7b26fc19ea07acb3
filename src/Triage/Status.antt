-- ===== src/Triage/Status.antt =====
-- src/triage/mod.rs: the status that people and verified fixes set, the seat and the bearer
-- decisions; src/sweep.rs: the transition of the computed status.
pub mod Laws
use reproit_cloud.Prelude.{if◌then◌else◌, ℕ, Bool, true, false, not, Option, none, some}
use reproit_cloud.Text.{Text, lit, text_eq}

pub data Status : Type 0 where
  untriaged investigating fixed wontfix : Status

unfoldable pub status_as_str : Status → Text
status_as_str untriaged = lit "untriaged"
status_as_str investigating = lit "investigating"
status_as_str fixed = lit "fixed"
status_as_str wontfix = lit "wontfix"

unfoldable pub parse_status : Text → Option Status
parse_status s =
    if text_eq s (lit "untriaged")
    then some untriaged
    else if text_eq s (lit "investigating")
    then some investigating
    else if text_eq s (lit "fixed")
    then some fixed
    else if text_eq s (lit "wontfix")
    then some wontfix
    else none

unfoldable pub apply : Status → Status → Status
apply from to = to

unfoldable pub on_verified_fix : Status → Option Status
on_verified_fix wontfix = none
on_verified_fix _ = some fixed

pub data SeatVerdict : Type 0 where
  allow no_seat not_signed_in : SeatVerdict

unfoldable pub seat_decision : Bool → Bool → SeatVerdict
seat_decision signed_in has_seat =
    if not signed_in then not_signed_in else if has_seat then allow else no_seat

pub data BearerVerdict : Type 0 where
  admin : BearerVerdict
  org : (org_id : ℕ) → BearerVerdict
  deny : BearerVerdict

unfoldable pub bearer_decision : Bool → Option (ℕ × Bool) → BearerVerdict
bearer_decision true org_owns = admin
bearer_decision false none = deny
bearer_decision false (some (org_id, true)) = org org_id
bearer_decision false (some (org_id, false)) = deny

-- `sweep::transition`: the status before a change, if it is to be recorded.
unfoldable pub transition : Option Text → Text → Option (Option Text)
transition none current = none
transition (some p) current = if text_eq p current then none else some (some p)
