-- ===== src/Protocol/Event/Laws.antt =====
-- Which events are valid: every text, list and encoded value within its bound.
use reproit_cloud.Prelude.{
  each, IsOk, All, Within, each-IsOk, All-iff, length, all, ◌≤◌, ◌≡◌, refl, ◌↔◌, true, some, List,
  [], ◌∷◌, arith,
}
use reproit_cloud.Text.{Text}
use reproit_cloud.Protocol.Errors.{Checked}
use reproit_cloud.Protocol.Validators.{
  is_lower_token_byte, validate_lower_token, validate_text, validate_optional_text,
}
use reproit_cloud.Protocol.Validators.Laws.{
  IsToken, validate_token-IsOk, validate_text-IsOk, validate_optional_token-IsOk,
  validate_optional_text-IsOk, validate_strings-IsOk, validate_value-IsOk,
}
use reproit_cloud.Protocol.Event.{
  FindingIdentity, PathStep, ObservationFields, FindingFields, Event, action, observation,
  backend_event, graph_edge, finding, defect_event, Serde, validate_identity, validate_step,
  validate_observation, validate_finding, validate_event, or_null,
}

-- A text of 16 KiB at most.
abbrev pub IsText : Text → Type 0
IsText value = length value ≤ 16384

pub record IsIdentity (i : FindingIdentity) : Type 0 where
  pub oracle : IsToken i.oracle
  pub lower : all is_lower_token_byte i.oracle ≡ true
  pub texts : All IsText (i.invariant ∷ i.kind ∷ i.message ∷ i.frame ∷ i.trigger ∷ [])
  pub boundary : Within IsText i.boundary

pub record IsStep (s : PathStep) : Type 0 where
  pub signature : IsText s.signature
  pub action : IsText s.action
  pub label : Within IsText s.label

pub record IsObservation (o : ObservationFields) : Type 0 where
  pub actor : Within IsToken o.actor
  pub state : Within IsText o.state
  pub route : Within IsText o.route
  pub visible_text : (length o.visible_text ≤ 1024) × All IsText o.visible_text
  pub oracle_signals : (length o.oracle_signals ≤ 256) × All (λ s. length s ≤ 128) o.oracle_signals
  pub response_shapes : (length o.response_shapes ≤ 256) × All IsText o.response_shapes
  pub counts : length o.counts ≤ 4096
  pub keys : All (λ e. length e.0 ≤ 128) o.counts

validate_lower_token-IsOk :
    (value : Text)
    → IsOk (validate_lower_token value) ↔ (IsToken value × (all is_lower_token_byte value ≡ true))
unfolding validate_lower_token
validate_lower_token-IsOk value = (
  (λ h. ((validate_token-IsOk value).0 (ground arith), ground arith)),
  (λ (t, l). ground (arith, (validate_token-IsOk value).1 t)),
)

validate_step-IsOk : (s : PathStep) → IsOk (validate_step s) ↔ IsStep s
unfolding validate_step
validate_step-IsOk s =
    let (sig, sig') = validate_text-IsOk s.signature 16384 in
    let (act, act') = validate_text-IsOk s.action 16384 in
    let (lab, lab') = validate_optional_text-IsOk s.label 16384 in
    (
      (λ h. record {
        signature = sig (ground arith);
        action = act (ground arith);
        label = lab (ground arith);
      }),
      (λ v. ground (arith, sig' v.signature, act' v.action, lab' v.label)),
    )

validate_identity-IsOk : (i : FindingIdentity) → IsOk (validate_identity i) ↔ IsIdentity i
unfolding validate_identity
validate_identity-IsOk i = (
  (λ h. record {
    oracle = (tok (ground arith)).0;
    lower = (tok (ground arith)).1;
    texts = text (every (ground arith));
    boundary = bound (ground arith);
  }),
  (λ v. ground (arith, tok' (v.oracle, v.lower), every' (text' v.texts), bound' v.boundary)),
)
  where
    fields : List Text
    fields = i.invariant ∷ i.kind ∷ i.message ∷ i.frame ∷ i.trigger ∷ []

    tok :
        IsOk (validate_lower_token i.oracle)
        → IsToken i.oracle × (all is_lower_token_byte i.oracle ≡ true)
    tok = (validate_lower_token-IsOk i.oracle).0

    tok' :
        IsToken i.oracle × (all is_lower_token_byte i.oracle ≡ true)
        → IsOk (validate_lower_token i.oracle)
    tok' = (validate_lower_token-IsOk i.oracle).1

    every :
        IsOk (each (λ v. validate_text v 16384) fields)
        → All (λ v. IsOk (validate_text v 16384)) fields
    every = (each-IsOk (λ v. validate_text v 16384) fields).0

    every' :
        All (λ v. IsOk (validate_text v 16384)) fields
        → IsOk (each (λ v. validate_text v 16384) fields)
    every' = (each-IsOk (λ v. validate_text v 16384) fields).1

    text : All (λ v. IsOk (validate_text v 16384)) fields → All IsText fields
    text = (All-iff (λ v. validate_text-IsOk v 16384) fields).0

    text' : All IsText fields → All (λ v. IsOk (validate_text v 16384)) fields
    text' = (All-iff (λ v. validate_text-IsOk v 16384) fields).1

    bound : IsOk (validate_optional_text i.boundary 16384) → Within IsText i.boundary
    bound = (validate_optional_text-IsOk i.boundary 16384).0

    bound' : Within IsText i.boundary → IsOk (validate_optional_text i.boundary 16384)
    bound' = (validate_optional_text-IsOk i.boundary 16384).1

validate_observation-IsOk :
    (o : ObservationFields) → IsOk (validate_observation o) ↔ IsObservation o
unfolding validate_observation
validate_observation-IsOk o =
    let (act, act') = validate_optional_token-IsOk o.actor in
    let (st, st') = validate_optional_text-IsOk o.state 16384 in
    let (ro, ro') = validate_optional_text-IsOk o.route 16384 in
    let (vis, vis') = validate_strings-IsOk o.visible_text 1024 16384 in
    let (sig, sig') = validate_strings-IsOk o.oracle_signals 256 128 in
    let (sha, sha') = validate_strings-IsOk o.response_shapes 256 16384 in
    let (ks, ks') = each-IsOk (λ e. validate_text e.0 128) o.counts in
    let (key, key') = All-iff (λ e. validate_text-IsOk e.0 128) o.counts in
    (
      (λ h. record {
        actor = act (ground arith);
        state = st (ground arith);
        route = ro (ground arith);
        visible_text = vis (ground arith);
        oracle_signals = sig (ground arith);
        response_shapes = sha (ground arith);
        counts = ground arith;
        keys = key (ks (ground arith));
      }),
      (λ v. ground (
        arith,
        act' v.actor,
        st' v.state,
        ro' v.route,
        vis' v.visible_text,
        sig' v.oracle_signals,
        sha' v.response_shapes,
        ks' (key' v.keys),
      )),
    )

-- A list of values that are each checked, as one condition.
each_iff {ℓ} :
    {A : Type 0} {P : A → Type ℓ} (check : A → Checked) (xs : List A)
    → ((x : A) → IsOk (check x) ↔ P x)
    → IsOk (each check xs) ↔ All P xs
each_iff check xs h =
    let (to, from) = each-IsOk check xs in
    let (there, back) = All-iff h xs in ((λ e. there (to e)), (λ a. from (back a)))

module _ (serde : Serde) where
  open serde use {Value, null, value_to_vec, context_to_value}

  -- A value whose encoding has 64 KiB at most.
  abbrev pub IsSmall : Value → Type 0
  IsSmall v = (t : Text) × (value_to_vec v ≡ some t) × (length t ≤ 65536)

  pub record IsFinding (f : FindingFields Value) : Type 0 where
    pub signature : IsText f.signature
    pub message : IsText f.message
    pub identity : IsIdentity f.identity
    pub steps : length f.path ≤ 256
    pub path : All IsStep f.path
    pub context : IsSmall (or_null null (context_to_value f.context))

  abbrev pub IsEvent : Event Value → Type 0
  IsEvent (action actor name) = Within IsToken actor × IsText name
  IsEvent (observation o) = IsObservation o
  IsEvent (backend_event evidence) = IsSmall evidence
  IsEvent (graph_edge from name to) = IsText from × IsText name × IsText to
  IsEvent (finding f) = IsFinding f
  IsEvent (defect_event reason) = Unit

  validate_finding-IsOk : (f : FindingFields Value) → IsOk (validate_finding serde f) ↔ IsFinding f
  unfolding validate_finding
  validate_finding-IsOk f =
      let (sig, sig') = validate_text-IsOk f.signature 16384 in
      let (mes, mes') = validate_text-IsOk f.message 16384 in
      let (ide, ide') = validate_identity-IsOk f.identity in
      let (ste, ste') = each_iff validate_step f.path validate_step-IsOk in
      let (val, val') =
        validate_value-IsOk (value_to_vec (or_null null (context_to_value f.context))) 65536 in
      (
        (λ h. record {
          signature = sig (ground arith);
          message = mes (ground arith);
          identity = ide (ground arith);
          steps = ground arith;
          path = ste (ground arith);
          context = val (ground arith);
        }),
        (λ v. ground (
          arith,
          sig' v.signature,
          mes' v.message,
          ide' v.identity,
          ste' v.path,
          val' v.context,
        )),
      )

  -- An event is accepted exactly when each of its parts is within its bound.
  pub validate_event-IsOk : (e : Event Value) → IsOk (validate_event serde e) ↔ IsEvent e
  unfolding validate_event
  validate_event-IsOk (action actor name) =
      let (act, act') = validate_optional_token-IsOk actor in
      let (txt, txt') = validate_text-IsOk name 16384 in
      ((λ h. (act (ground arith), txt (ground arith))), (λ (a, t). ground (arith, act' a, txt' t)))
  validate_event-IsOk (observation o) = validate_observation-IsOk o
  validate_event-IsOk (backend_event evidence) = validate_value-IsOk (value_to_vec evidence) 65536
  validate_event-IsOk (graph_edge from name to) =
      let (a, a') = validate_text-IsOk from 16384 in
      let (b, b') = validate_text-IsOk name 16384 in
      let (c, c') = validate_text-IsOk to 16384 in
      (
        (λ h. (a (ground arith), b (ground arith), c (ground arith))),
        (λ (x, y, z). ground (arith, a' x, b' y, c' z)),
      )
  validate_event-IsOk (finding f) = validate_finding-IsOk f
  validate_event-IsOk (defect_event reason) = ((λ _. tt), (λ _. refl))
