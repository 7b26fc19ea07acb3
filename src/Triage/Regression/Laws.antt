-- ===== src/Triage/Regression/Laws.antt =====
-- The sweep names a build exactly for the bugs that have regressed.
use reproit_cloud.Triage.Resolution.{
  recurrence, stamped, Clock, Occurrence, FirstSeen, Thresholds, evaluate, seen_at, regressed,
  on_or_after,
}
use reproit_cloud.Triage.Regression.{latest_post_fix_build, found_after, latest_after}
use reproit_cloud.Text.{Text, text_eq}
use reproit_cloud.Prelude.Int.{ℤ, le_int}
use reproit_cloud.Triage.Resolution.Verdict.{evaluate-regressed_iff, Recurs, recurrence_iff}
use reproit_cloud.Text.Compare.{text_eq_iff}
use reproit_cloud.Prelude.{
  Bool-cases, Option-cases, ℕ, ◌≡◌, refl, sym, ap, subst, ◌∙◌, ◌↔◌, inl, inr, false, Option, none,
  some, List, [], ◌∷◌, arith, some_eq,
}

abbrev IsSome : {A : Type 0} → Option A → Type 0
IsSome {A} o = (a : A) × (o ≡ some a)

module _ (clock : Clock) (seen : FirstSeen) (fixed : Text) (fix_epoch : ℤ)
    (known : seen_at fixed seen ≡ some fix_epoch) where
  open clock use {parse_epoch}

  found_after_iff :
      (o : Occurrence)
      → IsSome (found_after seen fixed fix_epoch (stamped o.build (parse_epoch o.at)))
        ↔ IsSome (recurrence clock seen fixed fix_epoch o)
  unfolding found_after recurrence on_or_after
  found_after_iff o = elim (Option-cases o.build) [
    | inl e ↦ ((λ (c, h). absurd (ground arith)), (λ (c, h). absurd (ground arith)))
    | inr (b, e) ↦ elim (Option-cases (parse_epoch o.at)) [
      | inl f ↦ ((λ (c, h). absurd (ground arith)), (λ (c, h). absurd (ground arith)))
      | inr (t, f) ↦
          let same = (text_eq_iff b fixed).0 in
          elim (Option-cases (seen_at b seen)) [
            | inl n ↦
                let other : text_eq b fixed ≡ false = elim (Bool-cases (text_eq b fixed)) [
                  | inl g ↦ absurd (ground (arith, ap (λ x. seen_at x seen) (same g)))
                  | inr g ↦ g
                ] in
                ((λ (c, h). absurd (ground arith)), (λ (c, h). absurd (ground arith)))
            | inr (first, n) ↦ ((λ (c, h). (t, ground arith)), (λ (c, h). ((t, b), ground arith)))
          ]
    ]
  ]

  latest_after-some :
      (best : ℤ × Text) (os : List Occurrence)
      → IsSome (latest_after clock seen fixed fix_epoch (some best) os)
  unfolding latest_after
  latest_after-some best [] = (best, refl)
  latest_after-some best (o ∷ os) =
      elim (Option-cases (found_after seen fixed fix_epoch (stamped o.build (parse_epoch o.at)))) [
        | inl e ↦ rw e (latest_after-some best os)
        | inr (x, e) ↦ elim (Bool-cases (le_int best.0 x.0)) [
          | inl le ↦ rw (e, le) (latest_after-some x os)
          | inr gt ↦ rw (e, gt) (latest_after-some best os)
        ]
      ]

  latest_after_iff :
      (os : List Occurrence)
      → IsSome (latest_after clock seen fixed fix_epoch none os)
        ↔ Recurs clock seen fixed fix_epoch os
  unfolding latest_after
  latest_after_iff [] = ((λ (c, h). absurd (ground arith)), (λ h. absurd h))
  latest_after_iff (o ∷ os) =
      let (there, back) = found_after_iff o in
      elim (Option-cases (found_after seen fixed fix_epoch (stamped o.build (parse_epoch o.at)))) [
        | inl e ↦
            let (to, from) = latest_after_iff os in
            rw e (
              (λ h. inr (to h)),
              (λ h. elim h [
                | inl (x, r) ↦
                    let (c, k) = back (x, (recurrence_iff clock seen fixed fix_epoch o x).1 r) in
                    absurd (ground arith)
                | inr r ↦ from r
              ]),
            )
        | inr (x, e) ↦
            let (t, k) = there (x, e) in
            rw e (
              (λ _. inl (t, (recurrence_iff clock seen fixed fix_epoch o t).0 k)),
              (λ _. latest_after-some x os),
            )
      ]

-- A build is named exactly when the verdict on the same occurrences is that the bug regressed.
pub latest_post_fix_build_iff :
    (clock : Clock) (bug : List Occurrence) (seen : FirstSeen) (fixed : Text) (traffic : ℕ)
    (now : Text) (th : Thresholds)
    → IsSome (latest_post_fix_build clock bug seen fixed)
      ↔ ((evaluate clock bug seen (some fixed) traffic now th).status ≡ regressed)
unfolding latest_post_fix_build
latest_post_fix_build_iff clock bug seen fixed traffic now th =
    let (to, from) = evaluate-regressed_iff clock bug seen (some fixed) traffic now th in
    elim (Option-cases (seen_at fixed seen)) [
      | inl e ↦ (
        (λ (c, h). absurd (ground arith)),
        (λ h.
            let (f, x, p, q, r) = to h in
            absurd (ground (arith, ap (λ y. seen_at y seen) (some_eq p)))),
      )
      | inr (fe, e) ↦
          let (there, back) = latest_after_iff clock seen fixed fe e bug in
          (
            (λ (c, h). elim (Option-cases (latest_after clock seen fixed fe none bug)) [
              | inl n ↦ absurd (ground arith)
              | inr (x, k) ↦ from (fixed, fe, refl, e, there (x, k))
            ]),
            (λ h.
                let (f, x, p, q, r) = to h in
                let same = some_eq p in
                let at : x ≡ fe = some_eq (sym q ∙ ap (λ y. seen_at y seen) (sym same) ∙ e) in
                let (c, k) = back (
                  subst (λ y. Recurs clock seen fixed y bug) at
                    (subst (λ y. Recurs clock seen y x bug) (sym same) r)) in
                (c.1, ground arith)),
          )
    ]
