-- ===== src/Protocol/Tests.antt =====
-- A small `serde_json` and a small digest, for the runs of protocol/src/lib.rs on concrete inputs:
-- a value is the text that is written for it, and an event is written behind a mark.
pub mod Frames
pub mod Ledgers
pub mod Graphs
pub mod Causes
use reproit_cloud.Protocol.Event.{
  finding, graph_edge, backend_event, observation, action, Event, Serde, defect_event,
}
use reproit_cloud.Protocol.Ledger.Order.{
  confirmed, violation, reproduced, preserved, authored_contract,
}
use reproit_cloud.Protocol.Ledger.{ProofLedger}
use reproit_cloud.Protocol.Artifact.{Codec, artifact_kind_as_str}
use reproit_cloud.Text.{Text, lit, text_eq}
use reproit_cloud.Protocol.Causal.{default_graph}
use reproit_cloud.Protocol.Errors.{
  reason_code_of_rank-rank, reason_code_of_rank, contract, reason_code_rank,
}
use reproit_cloud.Protocol.Environment.{default_envelope}
use reproit_cloud.Prelude.{
  ◌==◌, if◌then◌else◌, length, ℕ, zero, suc, ◌+◌, ◌%◌, ◌≡◌, refl, sym, true, Option, none, some, [],
  ◌∷◌, ◌++◌, arith, some_eq,
}

abbrev pub write_event : Event Text → Option Text
write_event (action none name) = some (b'a' ∷ name)
write_event (defect_event reason) = some (b'd' ∷ reason_code_rank reason ∷ [])
write_event _ = none

abbrev read_reason : Text → Option (Event Text)
read_reason (r ∷ []) = some (defect_event (reason_code_of_rank r))
read_reason _ = none

abbrev read_event : Text → Option (Event Text)
read_event [] = none
read_event (b ∷ rest) = if b == b'a' then some (action none rest) else read_reason rest

abbrev pub toy_serde : Serde
toy_serde = record {
  Value = Text;
  null = lit "null";
  value_to_vec = some;
  context_to_value = λ entries. some (lit "{}");
  event_to_vec = write_event;
  event_from_str = read_event;
}

pub read-write : (e : Event Text) (t : Text) → write_event e ≡ some t → read_event t ≡ some e
read-write (action none name) t h = rw (sym (some_eq h)) refl
read-write (action (some actor) name) t h = cc
read-write (observation o) t h = cc
read-write (backend_event evidence) t h = cc
read-write (graph_edge from name to) t h = cc
read-write (finding f) t h = cc
read-write (defect_event reason) t h = rw (sym (some_eq h), reason_code_of_rank-rank reason) refl

abbrev pub sample_ledger : ProofLedger
sample_ledger = record {
  finding_identities = lit "a" ∷ lit "b" ∷ [];
  authority = authored_contract ∷ [];
  evaluation = violation;
  evaluation_reasons = [];
  confirmation = reproduced;
  replay_identity_matched = true;
  minimization = preserved;
  promotion = confirmed;
  blockers = [];
}

unfoldable pub repeat : ℕ → ℕ → Text
repeat zero b = []
repeat (suc n) b = b ∷ repeat n b

pub length-repeat : (n b : ℕ) → length (repeat n b) ≡ n
unfolding repeat
length-repeat zero b = refl
length-repeat (suc n) b = omega (arith, length-repeat n b)

-- Sixty-four digits that depend on the length of a text.
abbrev toy_digest : Text → Text
toy_digest bytes = repeat 64 (b'0' + length bytes % 10)

abbrev pub toy_codec : Codec toy_serde
toy_codec = record {
  material_to_vec = λ kind parents payload. some (artifact_kind_as_str kind ++ payload);
  sha256_hex = toy_digest;
  graph_from_value = λ v. some default_graph;
  proof_from_value = λ v. some (record { captured = []; envelope = default_envelope });
  ledger_from_value = λ v. if text_eq v (lit "ledger") then some sample_ledger else none;
}
