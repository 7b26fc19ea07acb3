-- ===== src/Triage/Resolution/Verdict.antt =====
-- When a bug is regressed and when it is resolved.
use reproit_cloud.Triage.Resolution.{
  evaluate_fix, evaluate, verdict, Thresholds, regressed, resolved, or_zero, Clock, Occurrence,
  FirstSeen, seen_at, on_or_after, recurrence, tally, count_after, later_of,
}
use reproit_cloud.Prelude.{
  ltb, Bool-cases, Option-cases, ℕ, ◌+◌, ◌≤◌, ◌<◌, ◌≡◌, refl, sym, ap, subst, ◌∙◌, ◌↔◌, ◌⊎◌, inl,
  inr, true, Option, none, some, List, [], ◌∷◌, arith, some_eq,
}
use reproit_cloud.Prelude.Int.{◌-ℤ◌, ℤ, ◌≤ℤ◌}
use reproit_cloud.Text.{Text, text_eq}
use reproit_cloud.Text.Compare.{text_eq_iff}

-- A build is deployed at the fix or later.
abbrev pub IsDeployedAfter : FirstSeen → Text → ℤ → Text → Type 0
IsDeployedAfter seen fixed fix_epoch build =
    (build ≡ fixed) ⊎ ((first : ℤ) × (seen_at build seen ≡ some first) × (fix_epoch ≤ℤ first))

on_or_after_iff :
    (seen : FirstSeen) (fixed : Text) (fix_epoch : ℤ) (build : Text)
    → (on_or_after seen fixed fix_epoch build ≡ true) ↔ IsDeployedAfter seen fixed fix_epoch build
unfolding on_or_after
on_or_after_iff seen fixed fix_epoch build =
    let (same, same') = text_eq_iff build fixed in
    (
      (λ h. elim (Bool-cases (text_eq build fixed)) [
        | inl e ↦ inl (same e)
        | inr e ↦ elim (Option-cases (seen_at build seen)) [
          | inl n ↦ absurd (ground arith)
          | inr (first, s) ↦ inr (first, s, ground arith)
        ]
      ]),
      (λ h. elim h [ inl e ↦ ground (arith, same' e) | inr (first, s, le) ↦ ground arith ]),
    )

module _ (clock : Clock) where
  open clock use {parse_epoch, epoch_to_rfc3339}

  -- The occurrence shows the bug behind the fix: on a build that is deployed at the fix or later,
  -- and at a time that is not before it.
  pub record IsRecurrence (seen : FirstSeen) (fixed : Text) (fix_epoch : ℤ) (o : Occurrence)
      (epoch : ℤ) : Type 0 where
    pub build : Text
    pub tagged : o.build ≡ some build
    pub dated : parse_epoch o.at ≡ some epoch
    pub deployed : IsDeployedAfter seen fixed fix_epoch build
    pub after : fix_epoch ≤ℤ epoch

  pub recurrence_iff :
      (seen : FirstSeen) (fixed : Text) (fix_epoch : ℤ) (o : Occurrence) (epoch : ℤ)
      → (recurrence clock seen fixed fix_epoch o ≡ some epoch)
        ↔ IsRecurrence seen fixed fix_epoch o epoch
  unfolding recurrence
  recurrence_iff seen fixed fix_epoch o epoch = (
    (λ h. elim (Option-cases o.build) [
      | inl n ↦ absurd (ground arith)
      | inr (b, tagged) ↦ elim (Option-cases (parse_epoch o.at)) [
        | inl n ↦ absurd (ground arith)
        | inr (e, dated) ↦
            let same : e ≡ epoch = ground arith in
            record {
              build = b;
              tagged = tagged;
              dated = dated ∙ ap some same;
              deployed = (on_or_after_iff seen fixed fix_epoch b).0 (ground arith);
              after = ground arith;
            }
      ]
    ]),
    (λ r. ground (
      arith,
      r.tagged,
      r.dated,
      (on_or_after_iff seen fixed fix_epoch r.build).1 r.deployed,
      r.after,
    )),
  )

  -- Some occurrence of the bug is a recurrence.
  abbrev pub Recurs : FirstSeen → Text → ℤ → List Occurrence → Type 0
  Recurs seen fixed fix_epoch [] = ⊥
  Recurs seen fixed fix_epoch (o ∷ os) =
      ((epoch : ℤ) × IsRecurrence seen fixed fix_epoch o epoch) ⊎ Recurs seen fixed fix_epoch os

  module _ (seen : FirstSeen) (fixed : Text) (fix_epoch : ℤ) where
    tally-count :
        (state : ℕ × Option ℤ) (os : List Occurrence)
        → (tally clock seen fixed fix_epoch state os).0
          ≡ state.0 + count_after clock seen fixed fix_epoch os
    unfolding tally count_after
    tally-count (n, last) [] = omega arith
    tally-count (n, last) (o ∷ os) = elim (Option-cases (recurrence clock seen fixed fix_epoch o)) [
      | inl e ↦ rw (e, tally, count_after) (tally-count (n, last) os)
      | inr (x, e) ↦
          rw (e, tally, count_after) (tally-count (n + 1, some (later_of last x)) os ∙ omega arith)
    ]

    count_after_iff :
        (os : List Occurrence)
        → (0 < count_after clock seen fixed fix_epoch os) ↔ Recurs seen fixed fix_epoch os
    unfolding count_after
    count_after_iff [] = ((λ h. absurd (omega arith)), (λ h. absurd h))
    count_after_iff (o ∷ os) =
        let (to, from) = count_after_iff os in
        (
          (λ h. elim (Option-cases (recurrence clock seen fixed fix_epoch o)) [
            | inl e ↦ inr (to (ground arith))
            | inr (x, e) ↦ inl (x, (recurrence_iff seen fixed fix_epoch o x).0 e)
          ]),
          (λ h. elim h [
            | inl (x, r) ↦ ground (arith, (recurrence_iff seen fixed fix_epoch o x).1 r)
            | inr r ↦ ground (arith, from r)
          ]),
        )

    verdict-regressed_iff :
        (os : List Occurrence) (traffic : ℕ) (now : Text) (th : Thresholds)
        → ((verdict clock fixed fix_epoch
              (tally clock seen fixed fix_epoch (0, none) os)
              traffic
              now
              th).status
            ≡ regressed)
          ↔ Recurs seen fixed fix_epoch os
    unfolding verdict
    verdict-regressed_iff os traffic now th =
        let (to, from) = count_after_iff os in
        let count = tally-count (0, none) os in
        ((λ h. to (ground (arith, count))), (λ r. ground (arith, count, from r)))

    verdict-resolved_iff :
        (os : List Occurrence) (traffic : ℕ) (now : Text) (th : Thresholds)
        → ((verdict clock fixed fix_epoch
              (tally clock seen fixed fix_epoch (0, none) os)
              traffic
              now
              th).status
            ≡ resolved)
          ↔ (¬ Recurs seen fixed fix_epoch os
              × (th.resolve_quiet_secs ≤ℤ or_zero (parse_epoch now) -ℤ fix_epoch)
              × (th.min_post_fix_traffic ≤ traffic))
    unfolding verdict
    verdict-resolved_iff os traffic now th =
        let (to, from) = count_after_iff os in
        let count = tally-count (0, none) os in
        (
          (λ h. ((λ r. ground (arith, count, from r)), ground arith, ground arith)),
          (λ (none', quiet, enough). ground (arith, count, unseen os none', quiet, enough)),
        )
      where
        unseen :
            (os : List Occurrence)
            → ¬ Recurs seen fixed fix_epoch os
            → count_after clock seen fixed fix_epoch os ≡ 0
        unseen os h = elim (Bool-cases (ltb 0 (count_after clock seen fixed fix_epoch os))) [
          | inl e ↦ absurd (h ((count_after_iff os).0 (ground arith)))
          | inr e ↦ ground arith
        ]

  fix-regressed_iff :
      (bug : List Occurrence) (seen : FirstSeen) (fixed : Text) (o : Option ℤ) (traffic : ℕ)
      (now : Text) (th : Thresholds)
      → ((evaluate_fix clock bug seen fixed o traffic now th).status ≡ regressed)
        ↔ ((e : ℤ) × (o ≡ some e) × Recurs seen fixed e bug)
  unfolding evaluate_fix
  fix-regressed_iff bug seen fixed none traffic now th = ((λ h. cc), (λ (e, x, _). cc))
  fix-regressed_iff bug seen fixed (some e) traffic now th =
      let (to, from) = verdict-regressed_iff seen fixed e bug traffic now th in
      (
        (λ h. (e, refl, to h)),
        (λ (f, x, r). from (subst (λ y. Recurs seen fixed y bug) (sym (some_eq x)) r)),
      )

  fix-resolved_iff :
      (bug : List Occurrence) (seen : FirstSeen) (fixed : Text) (o : Option ℤ) (traffic : ℕ)
      (now : Text) (th : Thresholds)
      → ((evaluate_fix clock bug seen fixed o traffic now th).status ≡ resolved) ↔ (
          (e : ℤ) × (o ≡ some e)
          × (¬ Recurs seen fixed e bug)
          × (th.resolve_quiet_secs ≤ℤ or_zero (parse_epoch now) -ℤ e)
          × (th.min_post_fix_traffic ≤ traffic))
  unfolding evaluate_fix
  fix-resolved_iff bug seen fixed none traffic now th = ((λ h. cc), (λ (e, x, _, _, _). cc))
  fix-resolved_iff bug seen fixed (some e) traffic now th =
      let (to, from) = verdict-resolved_iff seen fixed e bug traffic now th in
      (
        (λ h. let (a, b, c) = to h in (e, refl, a, b, c)),
        (λ (f, x, a, b, c). from (
            subst
              (λ y.
                (¬ Recurs seen fixed y bug)
                × (th.resolve_quiet_secs ≤ℤ or_zero (parse_epoch now) -ℤ y)
                × (th.min_post_fix_traffic ≤ traffic))
              (sym (some_eq x)) (a, b, c))),
      )

  -- A bug is regressed exactly when a fix is claimed, its build has been seen, and an occurrence
  -- recurs behind it.
  pub evaluate-regressed_iff :
      (bug : List Occurrence) (seen : FirstSeen) (fixed : Option Text) (traffic : ℕ) (now : Text)
      (th : Thresholds)
      → ((evaluate clock bug seen fixed traffic now th).status ≡ regressed) ↔ (
          (f : Text) × (e : ℤ) × (fixed ≡ some f) × (seen_at f seen ≡ some e) × Recurs seen f e bug)
  unfolding evaluate
  evaluate-regressed_iff bug seen none traffic now th = ((λ h. cc), (λ (f, e, x, _, _). cc))
  evaluate-regressed_iff bug seen (some fixed) traffic now th =
      let (to, from) = fix-regressed_iff bug seen fixed (seen_at fixed seen) traffic now th in
      (
        (λ h. let (e, s, r) = to h in (fixed, e, refl, s, r)),
        (λ (f, e, x, s, r).
            let same = sym (some_eq x) in
            from (
              e,
              subst (λ y. seen_at y seen ≡ some e) same s,
              subst (λ y. Recurs seen y e bug) same r,
            )),
      )

  -- A bug is resolved exactly when a fix is claimed, its build has been seen, nothing recurs behind
  -- it, and both gates are passed: quiet time and traffic.
  pub evaluate-resolved_iff :
      (bug : List Occurrence) (seen : FirstSeen) (fixed : Option Text) (traffic : ℕ) (now : Text)
      (th : Thresholds)
      → ((evaluate clock bug seen fixed traffic now th).status ≡ resolved) ↔ (
          (f : Text) × (e : ℤ) × (fixed ≡ some f)
          × (seen_at f seen ≡ some e)
          × (¬ Recurs seen f e bug)
          × (th.resolve_quiet_secs ≤ℤ or_zero (parse_epoch now) -ℤ e)
          × (th.min_post_fix_traffic ≤ traffic))
  unfolding evaluate
  evaluate-resolved_iff bug seen none traffic now th = ((λ h. cc), (λ (f, e, x, _, _, _, _). cc))
  evaluate-resolved_iff bug seen (some fixed) traffic now th =
      let (to, from) = fix-resolved_iff bug seen fixed (seen_at fixed seen) traffic now th in
      (
        (λ h. let (e, s, a, b, c) = to h in (fixed, e, refl, s, a, b, c)),
        (λ (f, e, x, s, a, b, c).
            let same = sym (some_eq x) in
            from (
              e,
              subst (λ y. seen_at y seen ≡ some e) same s,
              subst (λ y. ¬ Recurs seen y e bug) same a,
              b,
              c,
            )),
      )
