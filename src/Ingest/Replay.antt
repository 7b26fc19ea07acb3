-- ===== src/Ingest/Replay.antt =====
-- src/ingest/buckets.rs: the steps of an error that a replay package carries.
pub mod Classes
use reproit_cloud.Text.Once.{split_once, rsplit_once}
use reproit_cloud.Text.{is_ascii_digit, is_ascii_lowercase, Text, lit, text_eq, starts_with}
use reproit_cloud.Prelude.{
  leb, ◌==◌, if◌then◌else◌, length, is_empty, drop, all, ℕ, Bool, false, not, ◌&&◌, ◌||◌, Option,
  none, some, List, [], ◌∷◌,
}
use reproit_cloud.Ingest.Aggregation.{Step, ErrorRec}

-- `value.strip_prefix(prefix)`
unfoldable pub strip_prefix : Text → Text → Option Text
strip_prefix value prefix =
    if starts_with value prefix then some (drop (length prefix) value) else none

abbrev pub is_role_byte : ℕ → Bool
is_role_byte b = is_ascii_lowercase b || b == b'-'

abbrev pub is_role : Option (Text × Text) → Bool
is_role none = false
is_role (some (role, idx)) =
    not (is_empty role) && all is_role_byte role && not (is_empty idx) && all is_ascii_digit idx

abbrev pub role_parts : Option Text → Option (Text × Text)
role_parts none = none
role_parts (some rest) = split_once b'#' rest

unfoldable pub is_role_selector : Text → Bool
unfolding strip_prefix split_once
is_role_selector sel = is_role (role_parts (strip_prefix sel (lit "role:")))

unfoldable pub is_structural_selector : Text → Bool
unfolding is_role_selector
is_structural_selector sel = starts_with sel (lit "key:") || is_role_selector sel

abbrev pub selects : Option Text → Bool
selects none = false
selects (some sel) = is_structural_selector sel

unfoldable pub is_structural_tap_action : Text → Bool
unfolding strip_prefix is_structural_selector
is_structural_tap_action a = selects (strip_prefix a (lit "tap:"))

abbrev pub is_class_byte : ℕ → Bool
is_class_byte b = is_ascii_lowercase b || is_ascii_digit b || b == b'_' || b == b'-'

abbrev pub is_class : Text → Bool
is_class class = not (is_empty class) && leb (length class) 32 && all is_class_byte class

abbrev pub types_class : Option (Text × Text) → Bool
types_class none = false
types_class (some (sel, class)) =
    (starts_with sel (lit "key:") || is_role_selector sel) && is_class class

abbrev pub type_parts : Option Text → Option (Text × Text)
type_parts none = none
type_parts (some rest) = rsplit_once b'=' rest

unfoldable pub is_safe_type_action : Text → Bool
unfolding strip_prefix rsplit_once is_role_selector
is_safe_type_action a = types_class (type_parts (strip_prefix a (lit "type:")))

unfoldable pub is_replay_action : Text → Bool
unfolding is_structural_tap_action is_safe_type_action
is_replay_action a =
    text_eq a (lit "back")
    || starts_with a (lit "key:")
    || is_structural_tap_action a
    || is_safe_type_action a

abbrev pub kept_actions : List Step → List Text
kept_actions [] = []
kept_actions (s ∷ path) =
    let rest = kept_actions path in if is_replay_action s.action then s.action ∷ rest else rest

unfoldable pub replay_actions : {V : Type 0} → ErrorRec V → List Text
unfolding is_replay_action
replay_actions rec = kept_actions rec.path
