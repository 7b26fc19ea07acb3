-- ===== src/Protocol/Artifact/Root.antt =====
-- The ledger at the root of an accepted graph.
use reproit_cloud.Prelude.{
  Bool-cases, Option-cases, ok, IsOk, All, Within, find, ◌≡◌, sym, ap, subst, ◌∙◌, inl, inr, Bool,
  true, Option, none, some, List, [], ◌∷◌, arith,
}
use reproit_cloud.Prelude.Order.{contains}
use reproit_cloud.Text.{Text, text_eq}
use reproit_cloud.Text.Compare.{text_ord}
use reproit_cloud.Protocol.Event.{Serde}
use reproit_cloud.Protocol.Ledger.{ProofLedger, validate_ledger}
use reproit_cloud.Protocol.Artifact.{
  ArtifactNode, EvidenceGraph, Codec, validate_payload, validate_artifact, validate_evidence,
  root_ledger, is_proof_ledger,
}
use reproit_cloud.Protocol.Artifact.Laws.{ids_of, validate_evidence-IsOk}

find-All {ℓ} :
    {A : Type 0} (P : A → Type ℓ) (p : A → Bool) (xs : List A) {x : A}
    → All P xs
    → find p xs ≡ some x
    → P x × (p x ≡ true)
unfolding find
find-All P p [] h e = absurd (ground arith)
find-All P p (y ∷ ys) {x} (h, hs) e = elim (Bool-cases (p y)) [
  | inl hit ↦ let same : y ≡ x = ground arith in (subst P same h, ap p (sym same) ∙ hit)
  | inr miss ↦ find-All P p ys hs (ground arith)
]

find-some :
    {V : Type 0} (root : Text) (nodes : List (ArtifactNode V))
    → contains (ids_of nodes) root ≡ true
    → (n : ArtifactNode V) × (find (λ node. text_eq node.id root) nodes ≡ some n)
unfolding find contains
find-some root [] h = absurd (ground arith)
find-some root (n ∷ ns) h = elim (Bool-cases (text_eq n.id root)) [
  | inl hit ↦ (n, ground arith)
  | inr miss ↦ let (m, e) = find-some root ns (ground arith) in (m, ground arith)
]

module _ (serde : Serde) (codec : Codec serde) where
  open serde use {Value}
  open codec use {ledger_from_value}

  ledger_of_valid :
      (n : ArtifactNode Value)
      → IsOk (validate_artifact serde codec n)
      → is_proof_ledger n.kind ≡ true
      → (l : ProofLedger) × (ledger_from_value n.payload ≡ some l) × IsOk (validate_ledger l)
  unfolding validate_artifact validate_payload
  ledger_of_valid n h k = elim (Option-cases (ledger_from_value n.payload)) [
    | inl e ↦ absurd (ground arith)
    | inr (l, e) ↦ (l, e, ground arith)
  ]

  -- A validated graph always has its root, so asking for its ledger never fails; the ledger that
  -- is found is itself valid.
  pub root_ledger_of_valid :
      (g : EvidenceGraph Value)
      → IsOk (validate_evidence serde codec g)
      → (o : Option ProofLedger) × (root_ledger serde codec g ≡ ok o)
        × Within (λ l. IsOk (validate_ledger l)) o
  unfolding root_ledger
  root_ledger_of_valid g h =
      let v = (validate_evidence-IsOk serde codec g).0 h in
      let (n, found) = find-some g.root g.nodes v.rooted in
      let (valid, _) =
        find-All (λ m. IsOk (validate_artifact serde codec m)) (λ node. text_eq node.id g.root)
          g.nodes v.nodes found in
      elim (Bool-cases (is_proof_ledger n.kind)) [
        | inl k ↦
            let (l, read, good) = ledger_of_valid n valid k in
            (some l, rw (h, found, k, read), good)
        | inr k ↦ (none, rw (h, found, k), tt)
      ]
