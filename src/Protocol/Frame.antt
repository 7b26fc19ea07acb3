-- ===== src/Protocol/Frame.antt =====
-- protocol/src/lib.rs: `EventFrame`, its line on the wire, and the line's decoder.
pub mod RoundTrip
pub mod Defects
use reproit_cloud.Prelude.{
  ltb, if◌then◌else◌, Result, ok, ◌>>=◌, ◌>>◌, reject, ok_or, map_err, length, get_elem?, ℕ, Bool,
  false, not, Option, none, some, List, [], ◌∷◌, ◌++◌,
}
use reproit_cloud.Text.{Text, lit, text_eq, starts_with}
use reproit_cloud.Text.Split.{splitn}
use reproit_cloud.Text.Decimal.{print_u64, parse_u64}
use reproit_cloud.Protocol.Errors.{
  ReasonCode, ProtocolError, new, scoped, EvidenceScope, shared, StreamDefect, shared_defect,
  Checked, frame_too_large, unsupported_version, malformed_frame, invalid_sequence, invalid_event,
}
use reproit_cloud.Protocol.Validators.{
  frame_prefix, max_frame_bytes, max_header_bytes, bounded_prefix, validate_token,
}
use reproit_cloud.Protocol.Scope.{
  validate_scope, header_parts, parse_scope, header_scope, header_sequence,
}
use reproit_cloud.Protocol.Event.{Event, Serde, validate_event}

pub record EventFrame (V : Type 0) : Type 0 where
  pub run_id : Text
  pub sequence : ℕ
  pub scope : EvidenceScope
  pub event : Event V

-- `option.unwrap_or(default)`
abbrev pub unwrap_or {ℓ} : {A : Type ℓ} → Option A → A → A
unwrap_or none default = default
unwrap_or (some a) default = a

-- `sequence_text.and_then(|value| value.parse::<u64>().ok())`
abbrev parse_sequence : Option Text → Option ℕ
parse_sequence none = none
parse_sequence (some value) = parse_u64 value

-- `let (Some(a), Some(b)) = (a, b) else`
abbrev both : Option Text → Option Text → Option (Text × Text)
both none b = none
both (some a) none = none
both (some a) (some b) = some (a, b)

abbrev magic_is : Option Text → Text → Bool
magic_is none expected = false
magic_is (some magic) expected = text_eq magic expected

abbrev pub defect_of : EvidenceScope → Option ℕ → ProtocolError → StreamDefect
defect_of scope sequence error = record {
  reason = error.reason;
  scope = unwrap_or error.scope scope;
  sequence = sequence;
}

abbrev pub defect_at : ReasonCode → EvidenceScope → Option ℕ → StreamDefect
defect_at reason scope sequence = record { reason = reason; scope = scope; sequence = sequence }

abbrev pub frame_of : {V : Type 0} → Text → ℕ → EvidenceScope → Event V → EventFrame V
frame_of run_id sequence scope event = record {
  run_id = run_id;
  sequence = sequence;
  scope = scope;
  event = event;
}

module _ (serde : Serde) where
  open serde use {Value, event_to_vec, event_from_str}

  unfoldable pub validate_frame : EventFrame Value → Checked
  validate_frame frame = do
    validate_token frame.run_id
    validate_scope frame.scope
    validate_event serde frame.event
    encoded ← ok_or (event_to_vec frame.event) (new invalid_event)
    reject (ltb max_frame_bytes (length encoded)) (scoped frame_too_large frame.scope)

  -- `"REPROIT/1 {domain} {subject} {} {} {event}"`
  unfoldable pub frame_line : EventFrame Value → Text → Text
  frame_line frame event =
      let (domain, subject) = header_parts frame.scope in
      lit "REPROIT/1"
      ++ (b' '
          ∷ (domain
              ++ (b' '
                  ∷ (subject
                      ++ (b' '
                          ∷ (print_u64 frame.sequence
                              ++ (b' ' ∷ (frame.run_id ++ (b' ' ∷ event)))))))))

  unfoldable pub encode_line : EventFrame Value → Result ProtocolError Text
  unfolding frame_line
  encode_line frame = do
    validate_frame frame
    event ← ok_or (event_to_vec frame.event) (new invalid_event)
    reject (ltb max_frame_bytes (length (frame_line frame event)))
        (scoped frame_too_large frame.scope)
    ok (frame_line frame event)

  -- `decode_frame_line` once the scope and the sequence are known.
  unfoldable pub decode_event :
      EvidenceScope → ℕ → Option Text → Option Text → Result StreamDefect (EventFrame Value)
  decode_event scope sequence run_id event_json = do
    (run, json) ← ok_or (both run_id event_json) (defect_at malformed_frame scope (some sequence))
    map_err (λ _. defect_at invalid_event scope (some sequence)) (validate_token run)
    event ← ok_or (event_from_str json) (defect_at invalid_event scope (some sequence))
    map_err (defect_of scope (some sequence)) (validate_frame (frame_of run sequence scope event))
    ok (frame_of run sequence scope event)

  -- `decode_frame_line` on the fields of the line.
  unfoldable pub decode_fields : List Text → Result StreamDefect (EventFrame Value)
  unfolding decode_event
  decode_fields parts = do
    reject (not (magic_is (get_elem? parts 0) (lit "REPROIT/1"))) (shared_defect malformed_frame)
    scope ←
        ok_or (parse_scope (unwrap_or (get_elem? parts 1) []) (unwrap_or (get_elem? parts 2) []))
          (shared_defect malformed_frame)
    sequence ← ok_or (parse_sequence (get_elem? parts 3)) (defect_at invalid_sequence scope none)
    decode_event scope sequence (get_elem? parts 4) (get_elem? parts 5)

  unfoldable pub decode_frame_line : Text → Result StreamDefect (EventFrame Value)
  unfolding decode_fields
  decode_frame_line line = do
    let header = bounded_prefix line max_header_bytes
    reject (ltb max_frame_bytes (length line)) (record {
      reason = frame_too_large;
      scope = unwrap_or (header_scope header) shared;
      sequence = header_sequence header;
    })
    reject (not (starts_with line frame_prefix)) (
        shared_defect
          (if starts_with line (lit "REPROIT/") then unsupported_version else malformed_frame))
    decode_fields (splitn 6 b' ' line)
