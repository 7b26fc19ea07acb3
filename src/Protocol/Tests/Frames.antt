-- ===== src/Protocol/Tests/Frames.antt =====
-- Frames, lines and scopes of protocol/src/lib.rs on concrete inputs.
use reproit_cloud.Text.Split.{splitn}
use reproit_cloud.Text.Decimal.{parse_u64, print_u64}
use reproit_cloud.Protocol.Validators.{
  validate_token, valid_hash, validate_optional_token, validate_text, bounded_prefix, frame_prefix,
}
use reproit_cloud.Protocol.Scope.{validate_scope, header_parts, parse_scope}
use reproit_cloud.Protocol.Frame.{
  EventFrame, encode_line, decode_frame_line, validate_frame, defect_at,
}
use reproit_cloud.Text.{text_eq, Text, lit, starts_with}
use reproit_cloud.Protocol.Tests.{toy_serde, read-write, repeat, length-repeat}
use reproit_cloud.Protocol.Errors.{contract, backend, frame_too_large}
use reproit_cloud.Protocol.Frame.RoundTrip.{decode-encode}
use reproit_cloud.Protocol.Event.{action, validate_event}
use reproit_cloud.Protocol.Event.Laws.{IsEvent, validate_event-IsOk}
use reproit_cloud.Protocol.Frame.Defects.{line, decode-valid, decode_oversized}
use reproit_cloud.Protocol.Validators.Prefix.{IsFloorPrefix, bounded_prefix-IsFloorPrefix}
use reproit_cloud.Prelude.{
  ok, err, IsOk, length, ◌≤◌, ◌≡◌, refl, ◌↔◌, true, none, some, [], ◌∷◌, ◌++◌, arith,
}

abbrev frame : EventFrame Text
frame = record {
  run_id = lit "run-1";
  sequence = 7;
  scope = contract (some (lit "0123456789abcdef"));
  event = action none (lit "tap");
}

abbrev sample_line : Text
sample_line = lit "REPROIT/1 contract 0123456789abcdef 7 run-1 atap"

decode-encode_example : decode_frame_line toy_serde sample_line ≡ ok frame
unfolding encode_line validate_frame validate_event validate_token validate_scope valid_hash
    validate_optional_token validate_text header_parts print_u64
decode-encode_example = decode-encode toy_serde frame (read-write frame.event) (omega arith) refl

decode-valid_example :
    (length sample_line ≤ 1048576)
    × (starts_with sample_line frame_prefix ≡ true)
    × IsOk (validate_frame toy_serde frame)
unfolding decode_frame_line starts_with splitn text_eq parse_scope valid_hash parse_u64
    validate_token validate_frame validate_scope validate_event validate_optional_token
    validate_text
decode-valid_example = decode-valid toy_serde sample_line {frame = frame} refl

-- The rest of a line that is too long.
unfoldable long_rest : Text
long_rest = repeat 1048576 b'x'

length-long_rest : length long_rest ≡ 1048576
unfolding long_rest
length-long_rest = length-repeat 1048576 b'x'

-- The sequence is not in its canonical form, and the rest does not start with an ASCII byte.
decode_oversized_example :
    decode_frame_line toy_serde
      (line toy_serde (lit "backend") (lit "-") (lit "+012") (206 ∷ 187 ∷ long_rest))
    ≡ err (defect_at frame_too_large backend (some 12))
unfolding parse_scope parse_u64 text_eq
decode_oversized_example =
    decode_oversized toy_serde (lit "backend") (lit "-") (lit "+012") (206 ∷ 187 ∷ long_rest)
      backend 12 refl refl refl refl refl (omega arith) (omega (arith, length-long_rest))

validate_event-IsOk_example :
    IsOk (validate_event toy_serde frame.event) ↔ IsEvent toy_serde frame.event
validate_event-IsOk_example = validate_event-IsOk toy_serde frame.event

-- The third byte of the text is inside a character.
bounded_prefix-IsFloorPrefix_example :
    IsFloorPrefix (lit "ab" ++ (206 ∷ 187 ∷ [])) 3 (bounded_prefix (lit "ab" ++ (206 ∷ 187 ∷ [])) 3)
bounded_prefix-IsFloorPrefix_example = bounded_prefix-IsFloorPrefix (lit "ab" ++ (206 ∷ 187 ∷ [])) 3
