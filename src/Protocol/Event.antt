-- ===== src/Protocol/Event.antt =====
-- protocol/src/lib.rs: `Event` and its parts. A JSON value is a type `V`, and `serde_json` is the
-- parameter `Serde`: what it writes and reads, `none` where it fails.
pub mod Laws
use reproit_cloud.Prelude.{
  ltb, ok, ◌>>◌, reject, each, length, ℕ, Option, none, some, List, [], ◌∷◌,
}
use reproit_cloud.Text.{Text}
use reproit_cloud.Protocol.Errors.{ReasonCode, Checked, invalid_event, new}
use reproit_cloud.Protocol.Validators.{
  max_text_bytes, max_token_bytes, max_context_bytes, validate_lower_token, validate_optional_token,
  validate_text, validate_optional_text, validate_strings, validate_value,
}

pub record FindingIdentity : Type 0 where
  pub oracle : Text
  pub invariant : Text
  pub kind : Text
  pub message : Text
  pub frame : Text
  pub trigger : Text
  pub boundary : Option Text

pub record PathStep : Type 0 where
  pub signature : Text
  pub action : Text
  pub label : Option Text

-- The fields of `Event::Observation`; a map is the list of its entries.
pub record ObservationFields : Type 0 where
  pub actor : Option Text
  pub state : Option Text
  pub route : Option Text
  pub visible_text : List Text
  pub counts : List (Text × ℕ)
  pub oracle_signals : List Text
  pub network_statuses : List ℕ
  pub response_shapes : List Text

-- The fields of `Event::Finding`.
pub record FindingFields (V : Type 0) : Type 0 where
  pub signature : Text
  pub message : Text
  pub identity : FindingIdentity
  pub path : List PathStep
  pub context : List (Text × V)

pub data Event (V : Type 0) : Type 0 where
  action : (actor : Option Text) (name : Text) → Event V
  observation : ObservationFields → Event V
  backend_event : (evidence : V) → Event V
  graph_edge : (from name to : Text) → Event V
  finding : FindingFields V → Event V
  defect_event : (reason : ReasonCode) → Event V

pub record Serde : Type 1 where
  pub Value : Type 0
  pub null : Value
  -- `serde_json::to_vec` of a value
  pub value_to_vec : Value → Option Text
  -- `serde_json::to_value` of a context
  pub context_to_value : List (Text × Value) → Option Value
  -- `serde_json::to_vec` and `to_string` of an event
  pub event_to_vec : Event Value → Option Text
  -- `serde_json::from_str` of an event
  pub event_from_str : Text → Option (Event Value)

unfoldable pub validate_identity : FindingIdentity → Checked
validate_identity identity = do
  validate_lower_token identity.oracle
  each (λ value. validate_text value max_text_bytes)
      (identity.invariant ∷ identity.kind ∷ identity.message ∷ identity.frame ∷ identity.trigger
        ∷ [])
  validate_optional_text identity.boundary max_text_bytes

unfoldable pub validate_step : PathStep → Checked
validate_step step = do
  validate_text step.signature max_text_bytes
  validate_text step.action max_text_bytes
  validate_optional_text step.label max_text_bytes

unfoldable pub validate_observation : ObservationFields → Checked
validate_observation o = do
  validate_optional_token o.actor
  validate_optional_text o.state max_text_bytes
  validate_optional_text o.route max_text_bytes
  validate_strings o.visible_text 1024 max_text_bytes
  validate_strings o.oracle_signals 256 max_token_bytes
  validate_strings o.response_shapes 256 max_text_bytes
  reject (ltb 4096 (length o.counts)) (new invalid_event)
  each (λ entry. validate_text entry.0 max_token_bytes) o.counts

abbrev or_null : {V : Type 0} → V → Option V → V
or_null null none = null
or_null null (some v) = v

module _ (serde : Serde) where
  open serde use {Value, null, value_to_vec, context_to_value}

  unfoldable pub validate_finding : FindingFields Value → Checked
  validate_finding f = do
    validate_text f.signature max_text_bytes
    validate_text f.message max_text_bytes
    validate_identity f.identity
    reject (ltb 256 (length f.path)) (new invalid_event)
    each validate_step f.path
    validate_value (value_to_vec (or_null null (context_to_value f.context))) max_context_bytes

  unfoldable pub validate_event : Event Value → Checked
  validate_event (action actor name) = do
    validate_optional_token actor
    validate_text name max_text_bytes
  validate_event (observation o) = validate_observation o
  validate_event (backend_event evidence) = validate_value (value_to_vec evidence) max_context_bytes
  validate_event (graph_edge from name to) = do
    validate_text from max_text_bytes
    validate_text name max_text_bytes
    validate_text to max_text_bytes
  validate_event (finding f) = validate_finding f
  validate_event (defect_event reason) = ok tt
