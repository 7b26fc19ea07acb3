-- ===== src/Ingest/Aggregation.antt =====
-- src/ingest/aggregation.rs: the counts of edges and the error records of a batch's frames. What a
-- JSON value is made of is the parameter `Json`; the hash map of the counts and the map of a
-- context are lists of entries with distinct keys.
pub mod Laws
use reproit_cloud.Protocol.Event.{
  action, observation, backend_event, graph_edge, finding, defect_event, PathStep, Event,
  FindingIdentity, FindingFields,
}
use reproit_cloud.Protocol.Frame.{EventFrame}
use reproit_cloud.Text.{Text, lit, text_eq}
use reproit_cloud.Prelude.{if◌then◌else◌, ℕ, ◌+◌, Option, none, some, List, [], ◌∷◌, ◌++◌}

pub record Step : Type 0 where
  pub sig : Text
  pub action : Text
  pub label : Option Text

pub record ErrorRec (V : Type 0) : Type 0 where
  pub sig : Text
  pub message : Text
  pub path : List Step
  pub context : List (Text × V)

abbrev pub EdgeCounts : Type 0
EdgeCounts = List (Text × ℕ)

pub record BatchAgg (V : Type 0) : Type 0 where
  pub edge_counts : EdgeCounts
  pub error_recs : List (ErrorRec V)

-- `serde_json::to_value` of an identity, and `Value::String`.
pub record Json (V : Type 0) : Type 0 where
  pub identity_to_value : FindingIdentity → V
  pub string : Text → V

-- `format!("{from}|{action}|{to}")`
abbrev pub edge_key : Text → Text → Text → Text
edge_key from name to = from ++ (b'|' ∷ (name ++ (b'|' ∷ to)))

-- `*edge_counts.entry(key).or_insert(0) += 1`
unfoldable pub count_edge : Text → EdgeCounts → EdgeCounts
count_edge key [] = (key, 1) ∷ []
count_edge key ((k, n) ∷ counts) =
    let rest = count_edge key counts in if text_eq k key then (k, n + 1) ∷ counts else (k, n) ∷ rest

unfoldable pub steps_of : List PathStep → List Step
steps_of [] = []
steps_of (step ∷ steps) =
    record { sig = step.signature; action = step.action; label = step.label } ∷ steps_of steps

module _ {V : Type 0} where
  -- `context.insert(key, value)`
  unfoldable pub insert : Text → V → List (Text × V) → List (Text × V)
  insert key value [] = (key, value) ∷ []
  insert key value ((k, v) ∷ entries) =
      let rest = insert key value entries in
      if text_eq k key then (k, value) ∷ entries else (k, v) ∷ rest

  -- `context.get(key)`
  unfoldable pub get : Text → List (Text × V) → Option V
  get key [] = none
  get key ((k, v) ∷ entries) = if text_eq k key then some v else get key entries

module _ {V : Type 0} (json : Json V) where
  open json use {identity_to_value, string}

  unfoldable pub error_rec_of : FindingFields V → ErrorRec V
  error_rec_of f = record {
    sig = f.signature;
    message = f.message;
    path = steps_of f.path;
    context =
        insert (lit "oracle") (string f.identity.oracle)
          (insert (lit "findingIdentity") (identity_to_value f.identity) f.context);
  }

  -- The body of the loop over the frames.
  unfoldable pub aggregate_event : Event V → BatchAgg V → BatchAgg V
  aggregate_event (graph_edge from name to) agg = record agg {
    edge_counts = count_edge (edge_key from name to) agg.edge_counts;
  }
  aggregate_event (finding f) agg = record agg {
    error_recs = agg.error_recs ++ (error_rec_of f ∷ []);
  }
  aggregate_event (action actor name) agg = agg
  aggregate_event (observation o) agg = agg
  aggregate_event (backend_event evidence) agg = agg
  aggregate_event (defect_event reason) agg = agg

  unfoldable pub aggregate_frames : BatchAgg V → List (EventFrame V) → BatchAgg V
  aggregate_frames agg [] = agg
  aggregate_frames agg (frame ∷ frames) = aggregate_frames (aggregate_event frame.event agg) frames

  unfoldable pub aggregate_events : List (EventFrame V) → BatchAgg V
  aggregate_events frames = aggregate_frames (record { edge_counts = []; error_recs = [] }) frames
