-- ===== src/Ingest/Cohorts/Tests.antt =====
-- The discriminators of src/ingest/cohorts.rs on concrete cohorts; a number is a fraction.
use reproit_cloud.Ingest.Cohorts.{discriminators, k_anon, Floats, Context}
use reproit_cloud.Ingest.Cohorts.Anonymity.{sharers, discriminators_anonymous}
use reproit_cloud.Prelude.{ltb, leb, All, length, ℕ, ◌*◌, ◌≤◌, ◌<◌, ◌≡◌, refl, List, [], ◌∷◌, map}
use reproit_cloud.Text.{text_eq, text_lt, Text, lit}

abbrev fractions : Floats
fractions = record {
  F = ℕ × ℕ;
  of_count = λ n. (n, 1);
  div = λ (a, b) (c, d). (a * d, b * c);
  at_least = λ (a, b) (c, d). leb (c * b) (a * d);
  less = λ (a, b) (c, d). ltb (a * d) (c * b);
  zero_f = (0, 1);
  half = (1, 2);
  one_and_half = (3, 2);
  infinity = (1, 0);
  round2 = λ x. x;
}

abbrev turkish : Context Text
turkish = (lit "locale", lit "tr") ∷ (lit "os", lit "ios") ∷ []

abbrev english : Context Text
english = (lit "locale", lit "en") ∷ (lit "os", lit "ios") ∷ []

abbrev cohort : List (Context Text)
cohort = turkish ∷ turkish ∷ turkish ∷ turkish ∷ turkish ∷ []

abbrev baseline : List (Context Text)
baseline = english ∷ english ∷ english ∷ turkish ∷ []

-- The locale sets the cohort apart, the operating system does not.
locale_test :
    map (λ d. d.value) (discriminators fractions (λ (v : Text). v) cohort baseline) ≡ lit "tr" ∷ []
unfolding discriminators text_lt text_eq
locale_test = refl

discriminators_anonymous_example :
    All
      (λ d. k_anon ≤ sharers (λ (v : Text). v) d.key d.value cohort)
      (discriminators fractions (λ (v : Text). v) cohort baseline)
    × (length cohort < k_anon → discriminators fractions (λ (v : Text). v) cohort baseline ≡ [])
discriminators_anonymous_example =
    discriminators_anonymous fractions (λ (v : Text). v) cohort baseline
