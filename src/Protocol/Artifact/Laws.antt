-- ===== src/Protocol/Artifact/Laws.antt =====
-- The evidence graph: each node behind its parents, each id once, and the ledger at the root.
use reproit_cloud.Prelude.{
  Result, ok, IsOk, All, length, is_empty, all, ◌≤◌, ◌≡◌, refl, sym, ap, ◌∙◌, ◌↔◌, inl, inr, Bool,
  true, false, ◌||◌, List, [], ◌∷◌, arith, Result-split, >>=-ok,
}
use reproit_cloud.Prelude.Order.{contains, set_insert}
use reproit_cloud.Prelude.Order.Canonical.{contains-set_insert}
use reproit_cloud.Prelude.Order.Distinct.{Distinct, FreshFrom, FreshFrom-nil_iff}
use reproit_cloud.Text.{Text, text_eq}
use reproit_cloud.Text.Compare.{text_ord, text_eq_self}
use reproit_cloud.Protocol.Validators.Laws.{IsToken, validate_token-IsOk}
use reproit_cloud.Protocol.Event.{Serde}
use reproit_cloud.Protocol.Causal.{Fault}
use reproit_cloud.Protocol.Artifact.{
  ArtifactKind, ArtifactNode, EvidenceGraph, Codec, artifact_id, new_node, validate_payload,
  validate_artifact, validate_nodes, validate_evidence,
}

abbrev pub ids_of : {V : Type 0} → List (ArtifactNode V) → List Text
ids_of [] = []
ids_of (n ∷ ns) = n.id ∷ ids_of ns

-- Each parent is the id of a node that stands before, in a list or in the nodes themselves.
abbrev pub ParentsFrom : {V : Type 0} → List Text → List (ArtifactNode V) → Type 0
ParentsFrom prior [] = Unit {0}
ParentsFrom prior (n ∷ ns) =
    All (λ p. contains prior p ≡ true) n.parents × ParentsFrom (n.id ∷ prior) ns

all_iff :
    (prior ps : List Text)
    → (all (contains prior) ps ≡ true) ↔ All (λ p. contains prior p ≡ true) ps
all_iff prior [] = ((λ _. tt), (λ _. refl))
all_iff prior (p ∷ ps) =
    let (to, from) = all_iff prior ps in
    ((λ h. (ground arith, to (ground arith))), (λ (k, ks). ground (arith, from ks)))

All-contains :
    (as' bs ps : List Text)
    → ((p : Text) → contains as' p ≡ contains bs p)
    → All (λ p. contains as' p ≡ true) ps
    → All (λ p. contains bs p ≡ true) ps
All-contains as' bs [] same h = tt
All-contains as' bs (p ∷ ps) same (h, hs) = (sym (same p) ∙ h, All-contains as' bs ps same hs)

contains-grow :
    (x : Text) (as' bs : List Text)
    → ((p : Text) → contains as' p ≡ contains bs p)
    → (p : Text) → contains (set_insert x as') p ≡ contains (x ∷ bs) p
unfolding contains
contains-grow x as' bs same p = contains-set_insert x as' p ∙ ap (◌||◌ (text_eq x p)) (same p)

module _ (serde : Serde) (codec : Codec serde) where
  open serde use {Value}

  -- A node that is built by `new` has the id that its content wants.
  pub validate-new_node :
      (kind : ArtifactKind) (parents : List Text) (payload : Value) {node : ArtifactNode Value}
      → new_node serde codec kind parents payload ≡ ok node
      → validate_artifact serde codec node ≡ validate_payload serde codec kind payload
  unfolding new_node validate_artifact
  validate-new_node kind parents payload {node} h =
      let (id, made, same) = >>=-ok (artifact_id serde codec kind parents payload) _ h in
      ground (arith, same, made, text_eq_self id)

  -- What the loop over the nodes establishes, and the ids that it ends with.
  validate_nodes-ok :
      (set prior : List Text) (nodes : List (ArtifactNode Value)) {ids : List Text}
      → ((p : Text) → contains set p ≡ contains prior p)
      → validate_nodes serde codec set nodes ≡ ok ids
      → All (λ n. IsOk (validate_artifact serde codec n)) nodes
        × ParentsFrom prior nodes
        × FreshFrom set (ids_of nodes)
        × ((p : Text) → contains ids p ≡ (contains prior p || contains (ids_of nodes) p))
  unfolding validate_nodes contains
  validate_nodes-ok set prior [] {ids} same h =
      (tt, tt, tt, λ p. ap (λ s. contains s p) (ok_path h) ∙ same p ∙ or_false (contains prior p))
    where
      ok_path : ◌≡◌ {A = Result Fault (List Text)} (ok set) (ok ids) → ids ≡ set
      ok_path e = cc

      or_false : (b : Bool) → b ≡ (b || false)
      or_false b = ground arith
  validate_nodes-ok set prior (n ∷ ns) {ids} same h =
      let (valid, parents, fresh, held) =
        validate_nodes-ok (set_insert n.id set) (n.id ∷ prior) ns {ids = ids}
          (contains-grow n.id set prior same) (ground arith) in
      (
        (ground arith, valid),
        (All-contains set prior n.parents same ((all_iff set n.parents).0 (ground arith)), parents),
        (ground arith, fresh),
        λ p. ground (arith, held p),
      )

  validate_nodes_complete :
      (set prior : List Text) (nodes : List (ArtifactNode Value))
      → ((p : Text) → contains set p ≡ contains prior p)
      → All (λ n. IsOk (validate_artifact serde codec n)) nodes
      → ParentsFrom prior nodes
      → FreshFrom set (ids_of nodes)
      → (ids : List Text) × (validate_nodes serde codec set nodes ≡ ok ids)
  unfolding validate_nodes
  validate_nodes_complete set prior [] same v ps f = (set, refl)
  validate_nodes_complete set prior (n ∷ ns) same (v, vs) (ps, pss) (f, fs) =
      let (ids, rest) =
        validate_nodes_complete (set_insert n.id set) (n.id ∷ prior) ns
          (contains-grow n.id set prior same) vs pss fs in
      let known =
        (all_iff set n.parents).1 (All-contains prior set n.parents (λ p. sym (same p)) ps) in
      (ids, ground (arith, v, known, f, rest))

  pub record IsEvidence (g : EvidenceGraph Value) : Type 0 where
    pub run_id : IsToken g.run_id
    pub filled : is_empty g.nodes ≡ false
    pub few : length g.nodes ≤ 4096
    pub nodes : All (λ n. IsOk (validate_artifact serde codec n)) g.nodes
    pub parents : ParentsFrom [] g.nodes
    pub distinct : Distinct (ids_of g.nodes)
    pub rooted : contains (ids_of g.nodes) g.root ≡ true

  validate_evidence_sound :
      (g : EvidenceGraph Value) → IsOk (validate_evidence serde codec g) → IsEvidence g
  unfolding validate_evidence
  validate_evidence_sound g h = elim (Result-split (validate_nodes serde codec [] g.nodes)) [
    | inr (e, failed) ↦ absurd (ground arith)
    | inl (ids, passed) ↦
        let (valid, parents, fresh, held) = validate_nodes-ok [] [] g.nodes (λ p. refl) passed in
        record {
          run_id = (validate_token-IsOk g.run_id).0 (ground arith);
          filled = ground arith;
          few = ground arith;
          nodes = valid;
          parents = parents;
          distinct = (FreshFrom-nil_iff (ids_of g.nodes)).0 fresh;
          rooted = sym (nothing (ids_of g.nodes) g.root) ∙ sym (held g.root) ∙ ground arith;
        }
  ]
    where
      nothing : (xs : List Text) (p : Text) → (contains [] p || contains xs p) ≡ contains xs p
      nothing xs p = unfold contains in refl

  validate_evidence_complete :
      (g : EvidenceGraph Value) → IsEvidence g → IsOk (validate_evidence serde codec g)
  unfolding validate_evidence
  validate_evidence_complete g v =
      let fresh = (FreshFrom-nil_iff (ids_of g.nodes)).1 v.distinct in
      let (ids, passed) =
        validate_nodes_complete [] [] g.nodes (λ p. refl) v.nodes v.parents fresh in
      let (_, _, _, held) = validate_nodes-ok [] [] g.nodes (λ p. refl) passed in
      let token = (validate_token-IsOk g.run_id).1 v.run_id in
      let root : contains ids g.root ≡ true =
        held g.root ∙ nothing (ids_of g.nodes) g.root ∙ v.rooted in
      ground (arith, passed, token, root, v.filled, v.few)
    where
      nothing : (xs : List Text) (p : Text) → (contains [] p || contains xs p) ≡ contains xs p
      nothing xs p = unfold contains in refl

  -- A graph is accepted exactly when its nodes are valid, each stands behind its parents under an
  -- id of its own, and the root is one of them.
  pub validate_evidence-IsOk :
      (g : EvidenceGraph Value) → IsOk (validate_evidence serde codec g) ↔ IsEvidence g
  validate_evidence-IsOk g = (validate_evidence_sound g, validate_evidence_complete g)
