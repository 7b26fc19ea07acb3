-- ===== src/Text/Signed.antt =====
-- Signed decimal numbers: `i64`'s `Display` and `FromStr`.
use reproit_cloud.Text.Decimal.{
  parse_u64, print_u64, digits-lacks_above, print_u64-digits, parse_u64-print_u64,
}
use reproit_cloud.Text.Split.{lacks}
use reproit_cloud.Text.{is_ascii_digit, Text}
use reproit_cloud.Prelude.{
  ltb, leb, ◌==◌, if◌then◌else◌, lt→ltb, &&-true, all, ℕ, zero, suc, ◌^◌, ◌<◌, ◌≡◌, refl, ap, ◌∙◌,
  true, Option, none, some, [], ◌∷◌, arith,
}
use reproit_cloud.Prelude.Int.{ℤ, pos, negsuc}

abbrev i64_bound : ℕ
i64_bound = 2 ^ 63

-- The values of an `i64`.
abbrev pub IsI64 : ℤ → Type 0
IsI64 (pos n) = n < 2 ^ 63
IsI64 (negsuc n) = n < 2 ^ 63

unfoldable pub print_i64 : ℤ → Text
print_i64 (pos n) = print_u64 n
print_i64 (negsuc n) = b'-' ∷ print_u64 (suc n)

abbrev negated : ℕ → ℤ
negated zero = pos zero
negated (suc n) = negsuc n

abbrev non_negative : Option ℕ → Option ℤ
non_negative none = none
non_negative (some n) = if ltb n i64_bound then some (pos n) else none

abbrev non_positive : Option ℕ → Option ℤ
non_positive none = none
non_positive (some n) = if leb n i64_bound then some (negated n) else none

-- The digits behind a `-`, where a second sign is refused.
abbrev parse_negative : Text → Option ℤ
parse_negative [] = none
parse_negative (b ∷ bs) =
    let digits = non_positive (parse_u64 (b ∷ bs)) in if b == b'+' then none else digits

-- `value.parse::<i64>()`: an optional sign, then digits.
unfoldable pub parse_i64 : Text → Option ℤ
parse_i64 [] = none
parse_i64 (b ∷ bs) =
    let below = parse_negative bs in
    let above = non_negative (parse_u64 (b ∷ bs)) in if b == b'-' then below else above

parse_negative_digits :
    (ds : Text)
    → all is_ascii_digit ds ≡ true
    → parse_u64 [] ≡ none
    → parse_negative ds ≡ non_positive (parse_u64 ds)
parse_negative_digits [] h e = rw e refl
parse_negative_digits (b ∷ bs) h e =
    let d = (&&-true (is_ascii_digit b) (all is_ascii_digit bs) h).0 in ground arith

parse_i64_digits :
    (ds : Text)
    → all is_ascii_digit ds ≡ true
    → parse_u64 [] ≡ none
    → parse_i64 ds ≡ non_negative (parse_u64 ds)
unfolding parse_i64
parse_i64_digits [] h e = rw e refl
parse_i64_digits (b ∷ bs) h e =
    let d = (&&-true (is_ascii_digit b) (all is_ascii_digit bs) h).0 in ground arith

pub parse_i64-print_i64 : (i : ℤ) → IsI64 i → parse_i64 (print_i64 i) ≡ some i
unfolding parse_i64 print_i64 parse_u64
parse_i64-print_i64 (pos n) h =
    let small = lt→ltb n i64_bound h in
    parse_i64_digits (print_u64 n) (print_u64-digits n (omega arith)) refl
    ∙ (ap non_negative (parse_u64-print_u64 n (omega arith)) ∙ (rw small refl))
parse_i64-print_i64 (negsuc n) h =
    parse_negative_digits (print_u64 (suc n)) (print_u64-digits (suc n) (omega arith)) refl
    ∙ (ap non_positive (parse_u64-print_u64 (suc n) (omega arith)) ∙ ground arith)

pub print_i64-lacks : (i : ℤ) → IsI64 i → lacks b':' (print_i64 i) ≡ true
unfolding print_i64
print_i64-lacks (pos n) h =
    digits-lacks_above b':' (print_u64 n) (omega arith) (print_u64-digits n (omega arith))
print_i64-lacks (negsuc n) h =
    digits-lacks_above b':' (print_u64 (suc n)) (omega arith)
      (print_u64-digits (suc n) (omega arith))
