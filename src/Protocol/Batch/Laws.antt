-- ===== src/Protocol/Batch/Laws.antt =====
-- Which batches are accepted.
use reproit_cloud.Prelude.{
  IsOk, All, Within, each-IsOk, length, is_empty, ℕ, ◌≤◌, ◌<◌, ◌≡◌, refl, ◌≢◌, ◌↔◌, false, ◌&&◌,
  Option, none, some, List, [], ◌∷◌, arith,
}
use reproit_cloud.Protocol.Validators.Laws.{
  IsToken, validate_token-IsOk, validate_optional_token-IsOk,
}
use reproit_cloud.Protocol.Event.{Serde}
use reproit_cloud.Protocol.Frame.{EventFrame, validate_frame}
use reproit_cloud.Protocol.Artifact.{Codec, validate_evidence}
use reproit_cloud.Protocol.Batch.{
  DeploymentIdentity, EventBatch, validate_deployment, validate_optional_deployment, deployment_key,
  not_after, validate_frames, validate_batch,
}

pub record IsDeployment (d : DeploymentIdentity) : Type 0 where
  pub version : Within IsToken d.version
  pub commit : Within IsToken d.commit
  pub keyed : deployment_key d ≢ none

validate_deployment-IsOk : (d : DeploymentIdentity) → IsOk (validate_deployment d) ↔ IsDeployment d
unfolding validate_deployment deployment_key
validate_deployment-IsOk d =
    let (v, v') = validate_optional_token-IsOk d.version in
    let (c, c') = validate_optional_token-IsOk d.commit in
    (
      (λ h. record {
        version = v (ground arith);
        commit = c (ground arith);
        keyed = λ e. ground arith;
      }),
      (λ k. ground (arith, v' k.version, c' k.commit, k.keyed)),
    )

-- Each number is above all before it.
abbrev pub Increasing : List ℕ → Type 0
Increasing [] = Unit {0}
Increasing (n ∷ ns) = All (λ m. n < m) ns × Increasing ns

abbrev pub sequences : {V : Type 0} → List (EventFrame V) → List ℕ
sequences [] = []
sequences (f ∷ fs) = f.sequence ∷ sequences fs

abbrev After : Option ℕ → List ℕ → Type 0
After none ns = Unit {0}
After (some n) ns = All (λ m. n < m) ns

All-lt_trans : (a b : ℕ) (ns : List ℕ) → a < b → All (λ m. b < m) ns → All (λ m. a < m) ns
All-lt_trans a b [] h hs = tt
All-lt_trans a b (n ∷ ns) h (k, ks) = (omega arith, All-lt_trans a b ns h ks)

-- A sequence after the last one, and the rest after it.
After-step :
    (last : Option ℕ) (n : ℕ) (ns : List ℕ)
    → ((not_after n last ≡ false) × All (λ m. n < m) ns × Increasing ns)
      ↔ (After last (n ∷ ns) × Increasing (n ∷ ns))
After-step none n ns = ((λ (a, b, c). (tt, (b, c))), (λ (a, (b, c)). (refl, b, c)))
After-step (some last) n ns = (
  (λ (a, b, c). let lt : last < n = ground arith in ((lt, All-lt_trans last n ns lt b), (b, c))),
  (λ ((a, _), (b, c)). (ground arith, b, c)),
)

module _ (serde : Serde) where
  open serde use {Value}

  abbrev pub IsFrame : EventFrame Value → Type 0
  IsFrame frame = IsOk (validate_frame serde frame)

  validate_frames-IsOk :
      (last : Option ℕ) (frames : List (EventFrame Value))
      → IsOk (validate_frames serde last frames)
        ↔ (All IsFrame frames × After last (sequences frames) × Increasing (sequences frames))
  unfolding validate_frames
  validate_frames-IsOk none [] = ((λ _. (tt, tt, tt)), (λ _. refl))
  validate_frames-IsOk (some n) [] = ((λ _. (tt, tt, tt)), (λ _. refl))
  validate_frames-IsOk last (f ∷ fs) =
      let (to, from) = validate_frames-IsOk (some f.sequence) fs in
      let (join', split') = After-step last f.sequence (sequences fs) in
      (
        (λ h.
            let (vs, above, increasing) = to (ground arith) in
            let (after, all_increasing) = join' (ground arith, above, increasing) in
            ((ground arith, vs), after, all_increasing)),
        (λ ((v, vs), after, increasing).
            let (here, above, rest) = split' (after, increasing) in
            ground (arith, v, here, from (vs, above, rest))),
      )

  pub record IsBatch (codec : Codec serde) (b : EventBatch Value) : Type 0 where
    pub version : b.version ≡ 1
    pub batch_id : IsToken b.batch_id
    pub app_id : IsToken b.app_id
    pub deployment : Within IsDeployment b.deployment
    pub few_frames : length b.frames ≤ 5000
    pub few_graphs : length b.evidence ≤ 256
    pub filled : (is_empty b.frames && is_empty b.evidence) ≡ false
    pub frames : All IsFrame b.frames
    pub increasing : Increasing (sequences b.frames)
    pub evidence : All (λ g. IsOk (validate_evidence serde codec g)) b.evidence

  validate_optional_deployment-IsOk :
      (d : Option DeploymentIdentity)
      → IsOk (validate_optional_deployment d) ↔ Within IsDeployment d
  unfolding validate_optional_deployment
  validate_optional_deployment-IsOk none = ((λ _. tt), (λ _. refl))
  validate_optional_deployment-IsOk (some d) = validate_deployment-IsOk d

  -- A batch is accepted exactly when its version, names, deployment and sizes are within their
  -- bounds, its frames and graphs are each valid, and its sequences increase.
  pub validate_batch-IsOk :
      (codec : Codec serde) (b : EventBatch Value)
      → IsOk (validate_batch serde codec b) ↔ IsBatch codec b
  unfolding validate_batch
  validate_batch-IsOk codec b =
      let (i, i') = validate_token-IsOk b.batch_id in
      let (a, a') = validate_token-IsOk b.app_id in
      let (d, d') = validate_optional_deployment-IsOk b.deployment in
      let (f, f') = validate_frames-IsOk none b.frames in
      let (e, e') = each-IsOk (validate_evidence serde codec) b.evidence in
      (
        (λ h. record {
          version = ground arith;
          batch_id = i (ground arith);
          app_id = a (ground arith);
          deployment = d (ground arith);
          few_frames = ground arith;
          few_graphs = ground arith;
          filled = ground arith;
          frames = (f (ground arith)).0;
          increasing = (f (ground arith)).2;
          evidence = e (ground arith);
        }),
        (λ v. ground (
          arith,
          v.version,
          i' v.batch_id,
          a' v.app_id,
          d' v.deployment,
          v.few_frames,
          v.few_graphs,
          v.filled,
          f' (v.frames, tt, v.increasing),
          e' v.evidence,
        )),
      )
