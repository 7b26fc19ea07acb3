-- ===== src/Text/Decimal.antt =====
-- Decimal numbers: `u64`'s `Display` and `FromStr`.
use native.Mathlib.Nat.{pow-suc}
use reproit_cloud.Text.Split.{lacks}
use reproit_cloud.Prelude.{
  ltb, ◌==◌, if◌then◌else◌, Bool-cases, length, all, ℕ, zero, suc, ◌+◌, ◌-◌, ◌*◌, ◌/◌, ◌%◌, ◌^◌,
  ◌≤◌, ◌<◌, ◌≡◌, refl, ◌∙◌, ◌≢◌, inl, inr, true, ◌&&◌, Option, none, some, [], ◌∷◌, arith,
}
use reproit_cloud.Text.{Text, is_ascii_digit}

abbrev pub u64_limit : ℕ
u64_limit = 2 ^ 64

-- The digits of a number in front of a text; 20 rounds are enough for 64 bits.
digits_from : ℕ → ℕ → Text → Text
digits_from zero n acc = acc
digits_from (suc rounds) n acc =
    let rest = digits_from rounds (n / 10) ((48 + n % 10) ∷ acc) in
    if ltb n 10 then (48 + n) ∷ acc else rest

unfoldable pub print_u64 : ℕ → Text
unfolding digits_from
print_u64 n = digits_from 20 n []

-- The value so far, times ten, plus the digit; `none` on a byte that is no digit, or on overflow.
digits_value : ℕ → Text → Option ℕ
digits_value value [] = some value
digits_value value (b ∷ bs) =
    let next = value * 10 + (b - 48) in
    let rest = digits_value next bs in if is_ascii_digit b && ltb next u64_limit then rest else none

-- `value.parse::<u64>()`: an optional `+`, then digits.
unfoldable pub parse_u64 : Text → Option ℕ
unfolding digits_value
parse_u64 [] = none
parse_u64 (b ∷ []) = digits_value 0 (b ∷ [])
parse_u64 (b ∷ c ∷ bs) = if b == b'+' then digits_value 0 (c ∷ bs) else digits_value 0 (b ∷ c ∷ bs)

digits_value-digits_from :
    (rounds n : ℕ) (acc : Text)
    → n < 10 ^ suc rounds
    → n < u64_limit
    → digits_value 0 (digits_from (suc rounds) n acc) ≡ digits_value n acc
unfolding digits_value digits_from
digits_value-digits_from zero n acc h k = ground arith
digits_value-digits_from (suc rounds) n acc h k = elim (Bool-cases (ltb n 10)) [
  | inl small ↦ rw small (ground arith)
  | inr large ↦ rw large (
      digits_value-digits_from rounds (n / 10) ((48 + n % 10) ∷ acc)
        (omega (arith, pow-suc 10 (suc rounds))) (omega arith)
      ∙ ground (arith, last_digit n))
]
  where
    last_digit : (m : ℕ) → m / 10 * 10 + (48 + m % 10 - 48) ≡ m
    last_digit m = omega arith

-- Every digit that is printed is a digit.
digits_from-digits :
    (rounds n : ℕ) (acc : Text)
    → n < 10 ^ rounds
    → all is_ascii_digit acc ≡ true
    → all is_ascii_digit (digits_from rounds n acc) ≡ true
unfolding digits_from
digits_from-digits zero n acc h k = k
digits_from-digits (suc rounds) n acc h k =
    ground (arith, digits_from-digits rounds (n / 10) ((48 + n % 10) ∷ acc), pow-suc 10 rounds)

digits_from-ne-nil : (rounds n d : ℕ) (acc : Text) → digits_from rounds n (d ∷ acc) ≢ []
unfolding digits_from
digits_from-ne-nil zero n d acc h = cc
digits_from-ne-nil (suc rounds) n d acc h =
    ground (arith, digits_from-ne-nil rounds (n / 10) (48 + n % 10) (d ∷ acc))

digits-lacks : (sep : ℕ) (ds : Text) → sep < 48 → all is_ascii_digit ds ≡ true → lacks sep ds ≡ true
digits-lacks sep [] h k = refl
digits-lacks sep (d ∷ ds) h k = ground (arith, digits-lacks sep ds)

pub digits-lacks_above :
    (sep : ℕ) (ds : Text) → 57 < sep → all is_ascii_digit ds ≡ true → lacks sep ds ≡ true
digits-lacks_above sep [] h k = refl
digits-lacks_above sep (d ∷ ds) h k = ground (arith, digits-lacks_above sep ds h)

-- A leading digit is no sign.
parse_u64_of_digits :
    (ds : Text) → ds ≢ [] → all is_ascii_digit ds ≡ true → parse_u64 ds ≡ digits_value 0 ds
unfolding parse_u64
parse_u64_of_digits [] h k = absurd (h refl)
parse_u64_of_digits (d ∷ []) h k = refl
parse_u64_of_digits (d ∷ e ∷ ds) h k = ground arith

pub print_u64-digits : (n : ℕ) → n < u64_limit → all is_ascii_digit (print_u64 n) ≡ true
unfolding print_u64
print_u64-digits n h = digits_from-digits 20 n [] (omega arith) refl

pub print_u64-lacks : (sep n : ℕ) → sep < 48 → n < u64_limit → lacks sep (print_u64 n) ≡ true
print_u64-lacks sep n h k = digits-lacks sep (print_u64 n) h (print_u64-digits n k)

pub print_u64-ne-nil : (n : ℕ) → print_u64 n ≢ []
unfolding print_u64 digits_from
print_u64-ne-nil n h = ground (arith, digits_from-ne-nil 19 (n / 10) (48 + n % 10) [])

-- Parsing what was printed gives the number back.
pub parse_u64-print_u64 : (n : ℕ) → n < u64_limit → parse_u64 (print_u64 n) ≡ some n
unfolding print_u64 digits_value
parse_u64-print_u64 n h =
    parse_u64_of_digits (print_u64 n) (print_u64-ne-nil n) (print_u64-digits n h)
    ∙ digits_value-digits_from 19 n [] (omega arith) h

length-digits_from :
    (rounds n : ℕ) (acc : Text) → length (digits_from rounds n acc) ≤ rounds + length acc
unfolding digits_from
length-digits_from zero n acc = omega arith
length-digits_from (suc rounds) n acc =
    ground (arith, length-digits_from rounds (n / 10) ((48 + n % 10) ∷ acc))

pub length-print_u64 : (n : ℕ) → length (print_u64 n) ≤ 20
unfolding print_u64
length-print_u64 n = omega (arith, length-digits_from 20 n [])
