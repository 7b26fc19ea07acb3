-- ===== src/Ingest/Tests.antt =====
-- The aggregation of src/ingest/aggregation.rs on a concrete batch; a value is a text.
use reproit_cloud.Prelude.Int.{ℤ, pos}
use reproit_cloud.Ingest.Aggregation.{get, Json, aggregate_events, error_rec_of, edge_key, ErrorRec}
use reproit_cloud.Protocol.Event.{graph_edge, finding, Event, FindingFields}
use reproit_cloud.Text.{lit, Text, text_eq, starts_with}
use reproit_cloud.Protocol.Frame.{EventFrame}
use reproit_cloud.Ingest.Aggregation.Laws.{
  count_of, crossings, aggregate_events-count, error_rec_of-context,
}
use reproit_cloud.Protocol.Errors.{shared}
use reproit_cloud.Ingest.Replay.{replay_actions}
use reproit_cloud.Ingest.Timeline.{Occurrence, timeline_weighted, Cell}
use reproit_cloud.Ingest.Replay.Classes.{TypesClass, replay_actions_typed}
use reproit_cloud.Ingest.Timeline.Totals.{occurred, sum_where, same_window, timeline_totals}
use reproit_cloud.Prelude.{
  if◌then◌else◌, All, ℕ, ◌≡◌, refl, true, Option, none, some, List, [], ◌∷◌, arith,
}

abbrev toy_json : Json Text
toy_json = record { identity_to_value = λ i. i.kind; string = λ t. t }

abbrev found : FindingFields Text
found = record {
  signature = lit "s";
  message = lit "boom";
  identity = record {
    oracle = lit "crash";
    invariant = [];
    kind = lit "panic";
    message = [];
    frame = [];
    trigger = [];
    boundary = none;
  };
  path = [];
  context = (lit "oracle", lit "forged") ∷ [];
}

abbrev sent : ℕ → Event Text → EventFrame Text
sent sequence event = record {
  run_id = lit "r";
  sequence = sequence;
  scope = shared;
  event = event;
}

abbrev frames : List (EventFrame Text)
frames =
    sent 1 (graph_edge (lit "a") (lit "tap") (lit "b"))
    ∷ sent 2 (finding found)
    ∷ sent 3 (graph_edge (lit "a") (lit "tap") (lit "b"))
    ∷ []

aggregate_events-count_example :
    count_of (lit "a|tap|b") (aggregate_events toy_json frames).edge_counts
    ≡ crossings (lit "a|tap|b") frames
aggregate_events-count_example = aggregate_events-count toy_json (lit "a|tap|b") frames

error_rec_of-context_example :
    (get (lit "oracle") (error_rec_of toy_json found).context ≡ some (lit "crash"))
    × (get (lit "findingIdentity") (error_rec_of toy_json found).context ≡ some (lit "panic"))
error_rec_of-context_example = error_rec_of-context toy_json found

-- A bar in a name makes two edges one.
edge_key_collision_test :
    edge_key (lit "a|b") (lit "c") (lit "d") ≡ edge_key (lit "a") (lit "b|c") (lit "d")
edge_key_collision_test = refl

abbrev typed : ErrorRec Text
typed = record {
  sig = lit "s";
  message = lit "m";
  path =
      record { sig = lit "s"; action = lit "type:key:name=rtl"; label = none }
      ∷ record { sig = lit "s"; action = lit "type:key:name=Alice Smith"; label = none }
      ∷ record { sig = lit "s"; action = lit "load"; label = none }
      ∷ record { sig = lit "s"; action = lit "tap:role:list-item#2"; label = none }
      ∷ [];
  context = [];
}

-- The text that a user typed is left out.
replay_test : replay_actions typed ≡ lit "type:key:name=rtl" ∷ lit "tap:role:list-item#2" ∷ []
unfolding replay_actions text_eq starts_with
replay_test = refl

replay_actions_typed_example :
    All (λ a. starts_with a (lit "type:") ≡ true → TypesClass a) (replay_actions typed)
replay_actions_typed_example = replay_actions_typed typed

abbrev two_hours : List Occurrence
two_hours =
    record { at = lit "a"; build = some (lit "1.0"); count = 2 }
    ∷ record { at = lit "a"; build = none; count = 3 }
    ∷ record { at = lit "b"; build = some (lit "1.0"); count = 5 }
    ∷ []

abbrev clock : Text → Option ℤ
clock t = if text_eq t (lit "a") then some (pos 3700) else none

timeline_test :
    (timeline_weighted clock two_hours (pos 3600)).total ≡ (pos 0, 5) ∷ (pos 3600, 5) ∷ []
unfolding timeline_weighted text_eq
timeline_test = refl

timeline_totals_example :
    let t = timeline_weighted clock two_hours (pos 3600) in
    let n = occurred clock 3600 (pos 3600) two_hours in
    (sum_where (λ k. same_window k (pos 3600)) t.total ≡ n)
    × (sum_where (λ (k : Cell). same_window k.0 (pos 3600)) t.cells ≡ n)
timeline_totals_example = timeline_totals clock two_hours (pos 3600) (pos 3600) (omega arith)
