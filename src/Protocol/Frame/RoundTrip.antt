-- ===== src/Protocol/Frame/RoundTrip.antt =====
-- A frame that is written is read back.
use reproit_cloud.Prelude.{
  Option-cases, ok, IsOk, length, ◌≤◌, ◌<◌, ◌≡◌, refl, ap, ◌∙◌, inl, inr, true, some, List, [], ◌∷◌,
  ◌++◌, arith,
}
use reproit_cloud.Text.{Text, lit, starts_with}
use reproit_cloud.Text.Compare.{text_eq_self, starts_with-append}
use reproit_cloud.Text.Split.{splitn, splitn-join}
use reproit_cloud.Text.Decimal.{print_u64, parse_u64-print_u64, print_u64-lacks, u64_limit}
use reproit_cloud.Protocol.Validators.{frame_prefix}
use reproit_cloud.Protocol.Validators.Laws.{IsToken, validate_token-IsOk, token-lacks}
use reproit_cloud.Protocol.Scope.{header_parts}
use reproit_cloud.Protocol.Scope.Laws.{
  IsValidScope, validate_scope-IsOk, parse_scope-header_parts, header_parts-lacks,
}
use reproit_cloud.Protocol.Event.{Event, Serde}
use reproit_cloud.Protocol.Frame.{
  EventFrame, validate_frame, frame_line, encode_line, decode_fields, decode_frame_line,
}

module _ (serde : Serde) where
  open serde use {Value, event_to_vec, event_from_str}

  -- What `serde_json` writes of this event, it reads back.
  abbrev pub ReadsBack : Event Value → Type 0
  ReadsBack e = (t : Text) → event_to_vec e ≡ some t → event_from_str t ≡ some e

  -- The parts of a valid frame that its line depends on.
  pub record IsSendable (frame : EventFrame Value) : Type 0 where
    pub run_id : IsToken frame.run_id
    pub scope : IsValidScope frame.scope

  validate_frame-IsSendable :
      (frame : EventFrame Value) → IsOk (validate_frame serde frame) → IsSendable frame
  unfolding validate_frame
  validate_frame-IsSendable frame h = record {
    run_id = (validate_token-IsOk frame.run_id).0 (ground arith);
    scope = (validate_scope-IsOk frame.scope).0 (ground arith);
  }

  -- The fields of the line before the event.
  fields : EventFrame Value → List Text
  fields frame =
      lit "REPROIT/1"
      ∷ (header_parts frame.scope).0
      ∷ (header_parts frame.scope).1
      ∷ print_u64 frame.sequence
      ∷ frame.run_id
      ∷ []

  splitn-frame_line :
      (frame : EventFrame Value) (event : Text)
      → IsSendable frame
      → frame.sequence < u64_limit
      → splitn 6 b' ' (frame_line serde frame event) ≡ fields frame ++ (event ∷ [])
  unfolding frame_line fields
  splitn-frame_line frame event v h =
      let (domain, subject) = header_parts-lacks frame.scope v.scope in
      let number = print_u64-lacks b' ' frame.sequence (omega arith) h in
      let run = token-lacks b' ' frame.run_id (omega arith) v.run_id.plain in
      splitn-join b' ' (fields frame) event (refl, (domain, (subject, (number, (run, tt)))))

  decode_fields_lem :
      (frame : EventFrame Value) (event : Text)
      → ReadsBack frame.event
      → IsOk (validate_frame serde frame)
      → frame.sequence < u64_limit
      → event_to_vec frame.event ≡ some event
      → decode_fields serde (fields frame ++ (event ∷ [])) ≡ ok frame
  unfolding decode_fields fields
  decode_fields_lem frame event back valid h e =
      let v = validate_frame-IsSendable frame valid in
      rw (
        text_eq_self (lit "REPROIT/1"),
        parse_scope-header_parts frame.scope v.scope,
        parse_u64-print_u64 frame.sequence h,
        (validate_token-IsOk frame.run_id).1 v.run_id,
        back event e,
        valid,
      )

  frame_line-starts_with :
      (frame : EventFrame Value) (event : Text)
      → starts_with (frame_line serde frame event) frame_prefix ≡ true
  unfolding frame_line
  frame_line-starts_with frame event = starts_with-append frame_prefix _

  encode_line_parts :
      (frame : EventFrame Value) {line : Text}
      → encode_line serde frame ≡ ok line
      → (event : Text) × (event_to_vec frame.event ≡ some event)
        × (line ≡ frame_line serde frame event)
        × (length line ≤ 1048576)
        × IsOk (validate_frame serde frame)
  unfolding encode_line
  encode_line_parts frame h = elim (Option-cases (event_to_vec frame.event)) [
    | inl e ↦ absurd (ground arith)
    | inr (event, e) ↦ (event, e, ground arith, ground arith, ground arith)
  ]

  -- If `serde_json` reads back what it writes of the frame's own event, a line that `encode_line`
  -- writes of the frame, whose sequence is a `u64`, decodes to that frame.
  pub decode-encode :
      (frame : EventFrame Value) {line : Text}
      → ReadsBack frame.event
      → frame.sequence < u64_limit
      → encode_line serde frame ≡ ok line
      → decode_frame_line serde line ≡ ok frame
  unfolding decode_frame_line
  decode-encode frame back h e =
      let (event, written, same, short, valid) = encode_line_parts frame e in
      let starts = frame_line-starts_with frame event in
      let decoded = decode_fields_lem frame event back valid h written in
      let split = splitn-frame_line frame event (validate_frame-IsSendable frame valid) h in
      rw same (ground (arith, starts, ap (decode_fields serde) split ∙ decoded))
