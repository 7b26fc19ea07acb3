-- ===== src/Triage/Status/Laws.antt =====
-- The statuses on the wire.
use reproit_cloud.Prelude.{◌≡◌, refl, ap, ◌∙◌, ◌↔◌, true, some, arith}
use reproit_cloud.Text.{Text, lit, text_eq}
use reproit_cloud.Text.Compare.{text_eq_iff}
use reproit_cloud.Triage.Status.{
  Status, untriaged, investigating, fixed, wontfix, status_as_str, parse_status,
}

parse_status-as_str : (s : Status) → parse_status (status_as_str s) ≡ some s
unfolding parse_status status_as_str text_eq
parse_status-as_str untriaged = refl
parse_status-as_str investigating = refl
parse_status-as_str fixed = refl
parse_status-as_str wontfix = refl

written_as : (t : Text) (s : Status) → parse_status t ≡ some s → t ≡ status_as_str s
unfolding parse_status status_as_str
written_as t s h =
    let a = text_eq_iff t (lit "untriaged") in
    let b = text_eq_iff t (lit "investigating") in
    let c = text_eq_iff t (lit "fixed") in
    let d = text_eq_iff t (lit "wontfix") in split s h a b c d
  where
    split :
        (s : Status)
        → parse_status t ≡ some s
        → (text_eq t (lit "untriaged") ≡ true) ↔ (t ≡ lit "untriaged")
        → (text_eq t (lit "investigating") ≡ true) ↔ (t ≡ lit "investigating")
        → (text_eq t (lit "fixed") ≡ true) ↔ (t ≡ lit "fixed")
        → (text_eq t (lit "wontfix") ≡ true) ↔ (t ≡ lit "wontfix")
        → t ≡ status_as_str s
    split untriaged h a b c d = ground arith
    split investigating h a b c d = ground arith
    split fixed h a b c d = ground arith
    split wontfix h a b c d = ground arith

-- A text is read as a status exactly when it is what that status is written as.
pub parse_status_iff : (t : Text) (s : Status) → (parse_status t ≡ some s) ↔ (t ≡ status_as_str s)
parse_status_iff t s = (written_as t s, λ e. ap parse_status e ∙ parse_status-as_str s)
