-- ===== src/Prelude/Int.antt =====
-- Integers for `i64` times, with the tests and the operations that the source makes.
use Prim.Native.Nat.{ℕ, suc, ◌+◌, ◌-◌, ◌≤◌}
use mathlib.Core.Path.{◌≡◌}
use mathlib.Core.Bool.{Bool, true, false, not, ◌&&◌}
use mathlib.Core.Logic.{◌↔◌}
use reproit_cloud.Prelude.Order.{Ord}
use native.Mathlib.Omega.{arith}
use reproit_cloud.Prelude.Tests.{leb, if◌then◌else◌}

-- `negsuc n` is -(n + 1).
pub data ℤ : Type 0 where
  pos : ℕ → ℤ
  negsuc : ℕ → ℤ

abbrev pub pos_part : ℤ → ℕ
pos_part (pos n) = n
pos_part (negsuc n) = 0

abbrev pub neg_part : ℤ → ℕ
neg_part (pos n) = 0
neg_part (negsuc n) = suc n

infix 50 ◌≤ℤ◌
abbrev pub ◌≤ℤ◌ : ℤ → ℤ → Type 0
a ≤ℤ b = pos_part a + neg_part b ≤ pos_part b + neg_part a

-- `a <= b`
abbrev pub le_int : ℤ → ℤ → Bool
le_int a b = leb (pos_part a + neg_part b) (pos_part b + neg_part a)

-- `a - b` of two integers, where it does not overflow.
infixl 65 ◌-ℤ◌
unfoldable pub ◌-ℤ◌ : ℤ → ℤ → ℤ
a -ℤ b =
    let plus = pos_part a + neg_part b in
    let minus = neg_part a + pos_part b in
    if leb minus plus then pos (plus - minus) else negsuc (minus - plus - 1)

-- `a.max(b)` and `a.min(b)`
unfoldable pub max_int : ℤ → ℤ → ℤ
max_int a b = if le_int a b then b else a

unfoldable pub min_int : ℤ → ℤ → ℤ
min_int a b = if le_int a b then a else b

pub -ℤ_parts :
    (a b : ℤ)
    → pos_part (a -ℤ b) + neg_part a + pos_part b ≡ neg_part (a -ℤ b) + pos_part a + neg_part b
unfolding ◌-ℤ◌
-ℤ_parts a b = ground arith

pub eq_of_parts : (a b : ℤ) → pos_part a + neg_part b ≡ pos_part b + neg_part a → a ≡ b
eq_of_parts a b h = ground arith

pub max_int-upper : (a b : ℤ) → (a ≤ℤ max_int a b)
unfolding max_int
max_int-upper a b = ground arith

pub max_int-upper_right : (a b : ℤ) → (b ≤ℤ max_int a b)
unfolding max_int
max_int-upper_right a b = ground arith

pub min_int-lower : (a b : ℤ) → (min_int a b ≤ℤ a)
unfolding min_int
min_int-lower a b = ground arith

pub min_int-lower_right : (a b : ℤ) → (min_int a b ≤ℤ b)
unfolding min_int
min_int-lower_right a b = ground arith

-- `a + b` and `a * n` of integers, where they do not overflow.
infixl 65 ◌+ℤ◌
unfoldable pub ◌+ℤ◌ : ℤ → ℤ → ℤ
a +ℤ b =
    let plus = pos_part a + pos_part b in
    let minus = neg_part a + neg_part b in
    if leb minus plus then pos (plus - minus) else negsuc (minus - plus - 1)

pub +ℤ_parts :
    (a b : ℤ)
    → pos_part (a +ℤ b) + neg_part a + neg_part b ≡ neg_part (a +ℤ b) + pos_part a + pos_part b
unfolding ◌+ℤ◌
+ℤ_parts a b = ground arith

pub le_int_irrefl : (a : ℤ) → not (le_int a a) ≡ false
le_int_irrefl a = ground arith

pub lt_int_trans :
    (a b c : ℤ) → not (le_int b a) ≡ true → not (le_int c b) ≡ true → not (le_int c a) ≡ true
lt_int_trans a b c h k = ground arith

pub lt_int_total : (a b : ℤ) → not (le_int b a) ≡ false → not (le_int a b) ≡ false → a ≡ b
lt_int_total a b h k = eq_of_parts a b (ground arith)

pub eq_int_iff : (a b : ℤ) → ((le_int a b && le_int b a) ≡ true) ↔ (a ≡ b)
eq_int_iff a b = ((λ h. eq_of_parts a b (ground arith)), (λ h. rw h (ground arith)))

instance abbrev pub int_ord : Ord ℤ
int_ord = record {
  lt = λ a b. not (le_int b a);
  eq = λ a b. le_int a b && le_int b a;
  eq_iff = eq_int_iff;
  lt_irrefl = le_int_irrefl;
  lt_trans = lt_int_trans;
  lt_total = lt_int_total;
}
