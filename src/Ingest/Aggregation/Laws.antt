-- ===== src/Ingest/Aggregation/Laws.antt =====
-- What is stored of a batch: a count for each edge, and a record for each finding whose oracle and
-- identity are the validated ones.
use mathlib.Core.List.{append-nil, append_assoc}
use reproit_cloud.Ingest.Aggregation.{
  get, lit, insert, Json, count_edge, aggregate_frames, EdgeCounts, aggregate_events, error_rec_of,
  aggregate_event, edge_key, BatchAgg,
}
use reproit_cloud.Protocol.Event.{
  action, observation, backend_event, graph_edge, finding, defect_event, FindingFields, Event,
}
use reproit_cloud.Protocol.Frame.{EventFrame}
use reproit_cloud.Text.{Text, text_eq}
use reproit_cloud.Text.Compare.{text_eq_self, text_eq_iff}
use reproit_cloud.Prelude.{
  if◌then◌else◌, Bool-cases, ℕ, suc, ◌+◌, ◌≡◌, refl, sym, ap, ◌∙◌, inl, inr, false, some, List, [],
  ◌∷◌, ◌++◌, map, arith,
}

-- The count of a key, and nothing where it has none.
unfoldable pub count_of : Text → EdgeCounts → ℕ
count_of key [] = 0
count_of key ((k, n) ∷ counts) = let rest = count_of key counts in if text_eq k key then n else rest

-- How often the events cross an edge with the key.
unfoldable pub crossings : {V : Type 0} → Text → List (EventFrame V) → ℕ
crossings key [] = 0
crossings key (frame ∷ frames) =
    let rest = crossings key frames in
    elim frame.event [
      | action actor name ↦ rest
      | observation o ↦ rest
      | backend_event evidence ↦ rest
      | graph_edge from name to ↦ if text_eq (edge_key from name to) key then suc rest else rest
      | finding f ↦ rest
      | defect_event reason ↦ rest
    ]

-- The findings of the events, in their order.
unfoldable pub findings_of : {V : Type 0} → List (EventFrame V) → List (FindingFields V)
findings_of [] = []
findings_of (frame ∷ frames) =
    let rest = findings_of frames in
    elim frame.event [
      | action actor name ↦ rest
      | observation o ↦ rest
      | backend_event evidence ↦ rest
      | graph_edge from name to ↦ rest
      | finding f ↦ f ∷ rest
      | defect_event reason ↦ rest
    ]

count_of-count_edge_self :
    (key : Text) (counts : EdgeCounts)
    → count_of key (count_edge key counts) ≡ suc (count_of key counts)
unfolding count_of count_edge
count_of-count_edge_self key [] = ground (arith, text_eq_self key)
count_of-count_edge_self key ((k, n) ∷ counts) = ground (arith, count_of-count_edge_self key counts)

count_of-count_edge_other :
    (key other : Text) (counts : EdgeCounts)
    → text_eq other key ≡ false
    → count_of key (count_edge other counts) ≡ count_of key counts
unfolding count_of count_edge
count_of-count_edge_other key other [] h = ground arith
count_of-count_edge_other key other ((k, n) ∷ counts) h =
    let (same, _) = text_eq_iff k other in
    elim (Bool-cases (text_eq k other)) [
      | inl e ↦
          let differs : text_eq k key ≡ false = ap (λ t. text_eq t key) (same e) ∙ h in ground arith
      | inr e ↦ ground (arith, count_of-count_edge_other key other counts h)
    ]

get-insert :
    {V : Type 0} (key : Text) (value : V) (entries : List (Text × V))
    → get key (insert key value entries) ≡ some value
unfolding get insert
get-insert key value [] = ground (arith, text_eq_self key)
get-insert key value ((k, v) ∷ entries) = ground (arith, get-insert key value entries)

get-insert_other :
    {V : Type 0} (key other : Text) (value : V) (entries : List (Text × V))
    → text_eq other key ≡ false
    → get key (insert other value entries) ≡ get key entries
unfolding get insert
get-insert_other key other value [] h = ground arith
get-insert_other key other value ((k, v) ∷ entries) h =
    let (same, _) = text_eq_iff k other in
    elim (Bool-cases (text_eq k other)) [
      | inl e ↦
          let differs : text_eq k key ≡ false = ap (λ t. text_eq t key) (same e) ∙ h in ground arith
      | inr e ↦ ground (arith, get-insert_other key other value entries h)
    ]

module _ {V : Type 0} (json : Json V) where
  open json use {identity_to_value, string}

  -- Whatever context an application sends, the record of its finding carries the oracle and the
  -- identity of the finding itself.
  pub error_rec_of-context :
      (f : FindingFields V)
      → (get (lit "oracle") (error_rec_of json f).context ≡ some (string f.identity.oracle))
        × (get (lit "findingIdentity") (error_rec_of json f).context
            ≡ some (identity_to_value f.identity))
  unfolding error_rec_of text_eq
  error_rec_of-context f = (
    get-insert (lit "oracle") (string f.identity.oracle) _,
    get-insert_other (lit "findingIdentity") (lit "oracle") (string f.identity.oracle) _ refl
        ∙ get-insert (lit "findingIdentity") (identity_to_value f.identity) f.context,
  )

  -- One event adds to the count what it crosses.
  aggregate_event-count :
      (key : Text) (agg : BatchAgg V) (frame : EventFrame V) (frames : List (EventFrame V))
      (e : Event V)
      → frame.event ≡ e
      → count_of key (aggregate_event json frame.event agg).edge_counts + crossings key frames
        ≡ count_of key agg.edge_counts + crossings key (frame ∷ frames)
  unfolding aggregate_event crossings
  aggregate_event-count key agg frame frames (action actor name) h = rw h refl
  aggregate_event-count key agg frame frames (observation o) h = rw h refl
  aggregate_event-count key agg frame frames (backend_event evidence) h = rw h refl
  aggregate_event-count key agg frame frames (graph_edge from name to) h =
      let (same, _) = text_eq_iff (edge_key from name to) key in
      elim (Bool-cases (text_eq (edge_key from name to) key)) [
        | inl e ↦ rw (h, e, same e, count_of-count_edge_self key agg.edge_counts) (omega arith)
        | inr e ↦
            rw (h, e, count_of-count_edge_other key (edge_key from name to) agg.edge_counts e) refl
      ]
  aggregate_event-count key agg frame frames (finding f) h = rw h refl
  aggregate_event-count key agg frame frames (defect_event reason) h = rw h refl

  aggregate_frames-count :
      (key : Text) (agg : BatchAgg V) (frames : List (EventFrame V))
      → count_of key (aggregate_frames json agg frames).edge_counts
        ≡ count_of key agg.edge_counts + crossings key frames
  unfolding aggregate_frames
  aggregate_frames-count key agg [] = unfold crossings in omega arith
  aggregate_frames-count key agg (frame ∷ frames) =
      aggregate_frames-count key (aggregate_event json frame.event agg) frames
      ∙ aggregate_event-count key agg frame frames frame.event refl

  -- The count that is stored for an edge is the number of the batch's edges with its key.
  pub aggregate_events-count :
      (key : Text) (frames : List (EventFrame V))
      → count_of key (aggregate_events json frames).edge_counts ≡ crossings key frames
  unfolding aggregate_events count_of
  aggregate_events-count key frames =
      let agg : BatchAgg V = record { edge_counts = []; error_recs = [] } in
      omega (arith, aggregate_frames-count key agg frames)

  aggregate_event-findings :
      (agg : BatchAgg V) (frame : EventFrame V) (frames : List (EventFrame V)) (e : Event V)
      → frame.event ≡ e
      → (aggregate_event json frame.event agg).error_recs
          ++ map (error_rec_of json) (findings_of frames)
        ≡ agg.error_recs ++ map (error_rec_of json) (findings_of (frame ∷ frames))
  unfolding aggregate_event findings_of
  aggregate_event-findings agg frame frames (action actor name) h = rw h refl
  aggregate_event-findings agg frame frames (observation o) h = rw h refl
  aggregate_event-findings agg frame frames (backend_event evidence) h = rw h refl
  aggregate_event-findings agg frame frames (graph_edge from name to) h = rw h refl
  aggregate_event-findings agg frame frames (finding f) h =
      rw h (append_assoc agg.error_recs (error_rec_of json f ∷ []) _)
  aggregate_event-findings agg frame frames (defect_event reason) h = rw h refl

  aggregate_frames-findings :
      (agg : BatchAgg V) (frames : List (EventFrame V))
      → (aggregate_frames json agg frames).error_recs
        ≡ agg.error_recs ++ map (error_rec_of json) (findings_of frames)
  unfolding aggregate_frames findings_of
  aggregate_frames-findings agg [] = sym (append-nil agg.error_recs)
  aggregate_frames-findings agg (frame ∷ frames) =
      aggregate_frames-findings (aggregate_event json frame.event agg) frames
      ∙ aggregate_event-findings agg frame frames frame.event refl

  -- The error records are those of the batch's findings, in the order of the frames.
  pub aggregate_events-findings :
      (frames : List (EventFrame V))
      → (aggregate_events json frames).error_recs ≡ map (error_rec_of json) (findings_of frames)
  unfolding aggregate_events
  aggregate_events-findings frames =
      aggregate_frames-findings (record { edge_counts = []; error_recs = [] }) frames
