-- ===== src/Security/Host/Equal.antt =====
-- The comparison of secrets in src/http_security.rs decides equality.
use Prim.Native.Nat.{bit_xor, bit_or, digits, differ, bit_xor-bitwise, bit_or-bitwise}
use reproit_cloud.Security.Host.{ct_eq, fold_diff}
use reproit_cloud.Prelude.{
  ◌==◌, if◌then◌else◌, ==_iff, Bool-cases, length, ℕ, zero, suc, ◌/◌, ◌%◌, ◌≤◌, ◌<◌, max, ◌≡◌, refl,
  sym, ap, ap₂, subst, ◌∙◌, ◌↔◌, inl, inr, true, false, List, [], ◌∷◌, arith,
}

differ_zero : (x y : ℕ) → x < 2 → y < 2 → differ x y ≡ 0 → x ≡ y
differ_zero zero y h k e = sym e
differ_zero (suc zero) zero h k e = absurd (ground (arith, e))
differ_zero (suc zero) (suc zero) h k e = refl
differ_zero (suc zero) (suc (suc y)) h k e = absurd (omega arith)
differ_zero (suc (suc x)) y h k e = absurd (omega arith)

differ_self : (x : ℕ) → x < 2 → differ x x ≡ 0
differ_self zero h = refl
differ_self (suc zero) h = refl
differ_self (suc (suc x)) h = absurd (omega arith)

max_zero : (x y : ℕ) → max x y ≡ 0 → (x ≡ 0) × (y ≡ 0)
max_zero x y h = (omega arith, omega arith)

xor_digits : (n a b : ℕ) → a ≤ n → digits (λ b. b) differ n a b ≡ 0 → a ≡ b
xor_digits zero zero b h e = sym e
xor_digits zero (suc a) b h e = absurd (omega arith)
xor_digits (suc n) zero b h e = sym e
xor_digits (suc n) (suc a) b h e =
    let half = xor_digits n (suc a / 2) (b / 2) (omega arith) (omega (arith, e)) in
    let low = differ_zero (suc a % 2) (b % 2) (omega arith) (omega arith) (omega (arith, e)) in
    omega (arith, half, low)

xor_self : (n a : ℕ) → a ≤ n → digits (λ b. b) differ n a a ≡ 0
xor_self zero zero h = refl
xor_self zero (suc a) h = absurd (omega arith)
xor_self (suc n) zero h = refl
xor_self (suc n) (suc a) h =
    let half = xor_self n (suc a / 2) (omega arith) in
    let low = differ_self (suc a % 2) (omega arith) in omega (arith, half, low)

or_digits : (n a b : ℕ) → a ≤ n → digits (λ b. b) max n a b ≡ 0 → (a ≡ 0) × (b ≡ 0)
or_digits zero zero b h e = (refl, e)
or_digits zero (suc a) b h e = absurd (omega arith)
or_digits (suc n) zero b h e = (refl, e)
or_digits (suc n) (suc a) b h e =
    let (half, _) = or_digits n (suc a / 2) (b / 2) (omega arith) (omega (arith, e)) in
    let (low, _) = max_zero (suc a % 2) (b % 2) (omega (arith, e)) in
    absurd (omega (arith, half, low))

bit_xor_zero : (a b : ℕ) → bit_xor a b ≡ 0 → a ≡ b
bit_xor_zero a b h = xor_digits a a b (omega arith) (sym (bit_xor-bitwise a b) ∙ h)

bit_xor_self : (a : ℕ) → bit_xor a a ≡ 0
bit_xor_self a = bit_xor-bitwise a a ∙ xor_self a a (omega arith)

bit_or_zero : (a b : ℕ) → bit_or a b ≡ 0 → (a ≡ 0) × (b ≡ 0)
bit_or_zero a b h = or_digits a a b (omega arith) (sym (bit_or-bitwise a b) ∙ h)

zero-bit_or : (b : ℕ) → bit_or 0 b ≡ b
zero-bit_or b = bit_or-bitwise 0 b

-- No difference is forgotten.
fold_diff_zero :
    (diff : ℕ) (a b : List ℕ) → length a ≡ length b → fold_diff diff a b ≡ 0 → (diff ≡ 0) × (a ≡ b)
unfolding fold_diff
fold_diff_zero diff [] [] l h = (h, refl)
fold_diff_zero diff [] (y ∷ b) l h = absurd (omega (arith, l))
fold_diff_zero diff (x ∷ a) [] l h = absurd (omega (arith, l))
fold_diff_zero diff (x ∷ a) (y ∷ b) l h =
    let (d, same) = fold_diff_zero (bit_or diff (bit_xor x y)) a b (omega (arith, l)) h in
    let (d', e) = bit_or_zero diff (bit_xor x y) d in
    (d', ap₂ (λ u us. u ∷ us) (bit_xor_zero x y e) same)

fold_diff_self : (a : List ℕ) → fold_diff 0 a a ≡ 0
unfolding fold_diff
fold_diff_self [] = refl
fold_diff_self (x ∷ a) =
    ap (λ d. fold_diff d a a) (zero-bit_or (bit_xor x x) ∙ bit_xor_self x) ∙ fold_diff_self a

-- The comparison that reads every byte says that two secrets are equal exactly when they are.
pub ct_eq_iff : (a b : List ℕ) → (ct_eq a b ≡ true) ↔ (a ≡ b)
unfolding ct_eq
ct_eq_iff a b = (
  (λ h. elim (Bool-cases (length a == length b)) [
    | inl e ↦
        let h' = subst (λ t. (if t then fold_diff 0 a b == 0 else false) ≡ true) e h in
        (fold_diff_zero 0 a b ((==_iff (length a) (length b)).0 e)
          ((==_iff (fold_diff 0 a b) 0).0 h')).1
    | inr e ↦
        let h' = subst (λ t. (if t then fold_diff 0 a b == 0 else false) ≡ true) e h in
        absurd (ground arith)
  ]),
  (λ e.
      subst (λ c. (if length a == length c then fold_diff 0 a c == 0 else false) ≡ true) e
        (rw ((==_iff (length a) (length a)).1 refl)
          ((==_iff (fold_diff 0 a a) 0).1 (fold_diff_self a)))),
)
