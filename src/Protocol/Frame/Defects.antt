-- ===== src/Protocol/Frame/Defects.antt =====
-- What is accepted, and what a refused line is attributed to.
use mathlib.Core.List.{append-nil}
use reproit_cloud.Prelude.{
  ok, err, IsOk, length, length-append, ℕ, ◌≤◌, ◌<◌, ◌≡◌, refl, sym, ap, subst, ◌∙◌, true, some,
  List, [], ◌∷◌, ◌++◌, arith,
}
use reproit_cloud.Text.{Text, lit, starts_with}
use reproit_cloud.Text.Compare.{text_eq_self}
use reproit_cloud.Text.Boundary.{is_char_boundary-append}
use reproit_cloud.Text.Split.{
  lacks, split, split-append, split-lacks, split-join, join, join_behind,
}
use reproit_cloud.Text.Decimal.{parse_u64}
use reproit_cloud.Protocol.Errors.{EvidenceScope, frame_too_large}
use reproit_cloud.Protocol.Validators.{bounded_prefix, frame_prefix}
use reproit_cloud.Protocol.Validators.Prefix.{bounded_prefix-IsFloorPrefix}
use reproit_cloud.Protocol.Scope.{header_scope, header_sequence, parse_scope}
use reproit_cloud.Protocol.Event.{Serde}
use reproit_cloud.Protocol.Frame.{
  EventFrame, validate_frame, decode_event, decode_fields, decode_frame_line, defect_at,
}

-- The header of a line, up to its sequence: magic, domain, subject and sequence.
abbrev pub header_text : Text → Text → Text → Text
header_text domain subject digits = join b' ' (lit "REPROIT/1" ∷ domain ∷ subject ∷ []) digits

-- A prefix that is long enough holds all of another prefix, and what follows it starts the rest.
prefix_split :
    (a b c d : Text)
    → a ++ b ≡ c ++ d
    → length c ≤ length a
    → (e : Text) × ((a ≡ c ++ e) × (e ++ b ≡ d))
prefix_split a b [] d h k = (a, (refl, h))
prefix_split [] b (x ∷ c) d h k = absurd (omega arith)
prefix_split (y ∷ a) b (x ∷ c) d h k =
    let (e, (q, r)) = prefix_split a b c d (ground arith) (omega arith) in (e, (ground arith, r))

-- The first piece of a text that starts with a piece, and ends there or goes on behind a separator.
split_first :
    (piece e b d : Text)
    → lacks b' ' piece ≡ true
    → e ++ b ≡ b' ' ∷ d
    → (pieces : List Text) × (split b' ' (piece ++ e) ≡ piece ∷ pieces)
split_first piece [] b d l h = ([], ap (split b' ') (append-nil piece) ∙ split-lacks b' ' piece l)
split_first piece (x ∷ e) b d l h =
    let same : x ≡ b' ' = ground (arith, h) in
    (
      split b' ' e,
      subst (λ y. split b' ' (piece ++ y ∷ e) ≡ piece ∷ split b' ' e) (sym same)
          (split-append b' ' piece e l),
    )

-- A line over four fields, the first of which is the magic, and then any bytes.
module _ (serde : Serde) (domain subject digits rest : Text) where
  abbrev pub line : Text
  line = header_text domain subject digits ++ (b' ' ∷ rest)

  -- The bounded prefix of the line is split into the four fields first.
  bounded_prefix-line :
      lacks b' ' domain ≡ true
      → lacks b' ' subject ≡ true
      → lacks b' ' digits ≡ true
      → length (header_text domain subject digits) ≤ 512
      → (pieces : List Text) × (split b' ' (bounded_prefix line 512)
          ≡ lit "REPROIT/1" ∷ domain ∷ subject ∷ digits ∷ pieces)
  bounded_prefix-line d s n fits =
      let head = header_text domain subject digits in
      let p = bounded_prefix-IsFloorPrefix line 512 in
      let whole = length-append head (b' ' ∷ rest) in
      let at = is_char_boundary-append head b' ' rest (omega arith) in
      let long = p.longest (length head) fits (omega (arith, whole)) at in
      let (e, (q, r)) = prefix_split _ p.prefix.0 head (b' ' ∷ rest) p.prefix.1 long in
      let (pieces, cut) = split_first digits e p.prefix.0 rest n r in
      let before = lit "REPROIT/1" ∷ domain ∷ subject ∷ [] in
      let joined = q ∙ join_behind b' ' before digits e in
      (
        pieces,
        ap (split b' ') joined
            ∙ (split-join b' ' before (digits ++ e) (refl, (d, (s, tt)))
                ∙ ap (λ t. before ++ t) cut),
      )

  -- A line over the frame bound whose first four fields are the magic, a scope that parses and a
  -- sequence that parses as a `u64`, all within the first 512 bytes, is refused as too large, with
  -- that scope and sequence, whatever bytes follow.
  pub decode_oversized :
      (scope : EvidenceScope) (sequence : ℕ)
      → lacks b' ' domain ≡ true
      → lacks b' ' subject ≡ true
      → lacks b' ' digits ≡ true
      → parse_scope domain subject ≡ some scope
      → parse_u64 digits ≡ some sequence
      → length (header_text domain subject digits) ≤ 512
      → 1048576 < length line
      → decode_frame_line serde line ≡ err (defect_at frame_too_large scope (some sequence))
  unfolding decode_frame_line header_scope header_sequence
  decode_oversized scope sequence d s n parsed number fits long =
      let (pieces, e) = bounded_prefix-line d s n fits in
      let magic = text_eq_self (lit "REPROIT/1") in ground (arith, e, magic, parsed, number)

-- An accepted line has the prefix and the size of the protocol, and its frame is valid.
pub decode-valid :
    (serde : Serde) (text : Text) {frame : EventFrame serde.Value}
    → decode_frame_line serde text ≡ ok frame
    → (length text ≤ 1048576)
      × (starts_with text frame_prefix ≡ true)
      × IsOk (validate_frame serde frame)
unfolding decode_frame_line decode_fields decode_event
decode-valid serde text h = (ground arith, ground arith, ground arith)
