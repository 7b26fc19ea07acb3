-- ===== src/Prelude/Results.antt =====
-- Fallible code: a result with its error, and the early returns of the source.
use mathlib.Core.Path.{◌≡◌, refl}
use mathlib.Core.Logic.{◌↔◌, ◌⊎◌, inl, inr}
use mathlib.Core.Bool.{Bool, true, false}
use mathlib.Core.Option.{Option, none, some}
use mathlib.Core.List.{List, [], ◌∷◌}
use native.Mathlib.Omega.{arith}

pub data Result (E A : Type 0) : Type 0 where
  ok : A → Result E A
  err : E → Result E A

infixl 5 ◌>>=◌ ◌>>◌
abbrev pub ◌>>=◌ : {E A B : Type 0} → Result E A → (A → Result E B) → Result E B
ok a >>= f = f a
err e >>= f = err e

abbrev pub ◌>>◌ : {E B : Type 0} → Result E (Unit {0}) → Result E B → Result E B
m >> k = m >>= λ _. k

-- `if condition { return Err(error); }`
abbrev pub reject : {E : Type 0} → Bool → E → Result E (Unit {0})
reject true e = err e
reject false e = ok tt

-- `option.ok_or(error)?`
abbrev pub ok_or : {E A : Type 0} → Option A → E → Result E A
ok_or none e = err e
ok_or (some a) e = ok a

-- `result.map_err(f)?`
abbrev pub map_err : {E F A : Type 0} → (E → F) → Result E A → Result F A
map_err f (ok a) = ok a
map_err f (err e) = err (f e)

-- `for x in xs { check(x)?; }`
unfoldable pub each : {E A : Type 0} → (A → Result E (Unit {0})) → List A → Result E (Unit {0})
each check [] = ok tt
each check (x ∷ xs) = check x >> each check xs

abbrev pub IsOk : {E : Type 0} → Result E (Unit {0}) → Type 0
IsOk r = r ≡ ok tt

-- A predicate that holds of every element of a list.
abbrev pub All {ℓ κ} : {A : Type ℓ} → (A → Type κ) → List A → Type κ
All P [] = Unit
All P (x ∷ xs) = P x × All P xs

-- A predicate on the value of an option, if it has one.
abbrev pub Within {ℓ κ} : {A : Type ℓ} → (A → Type κ) → Option A → Type κ
Within P none = Unit
Within P (some a) = P a

pub Result-cases : {E : Type 0} (r : Result E (Unit {0})) → (r ≡ ok tt) ⊎ ((e : E) × (r ≡ err e))
Result-cases (ok tt) = inl refl
Result-cases (err e) = inr (e, refl)

pub >>-IsOk : {E : Type 0} (m k : Result E (Unit {0})) → IsOk (m >> k) ↔ (IsOk m × IsOk k)
>>-IsOk m k = ground arith

pub reject-IsOk : {E : Type 0} (b : Bool) (e : E) → IsOk (reject b e) ↔ (b ≡ false)
reject-IsOk b e = ground arith

pub map_err-IsOk :
    {E F : Type 0} (f : E → F) (r : Result E (Unit {0})) → IsOk (map_err f r) ↔ IsOk r
map_err-IsOk f r = ground arith

pub each-IsOk :
    {E A : Type 0} (check : A → Result E (Unit {0})) (xs : List A)
    → IsOk (each check xs) ↔ All (λ x. IsOk (check x)) xs
unfolding each
each-IsOk check [] = ((λ _. tt), (λ _. refl))
each-IsOk check (x ∷ xs) = ground (arith, each-IsOk check xs)

pub All-iff {ℓ κ μ} :
    {A : Type ℓ} {P : A → Type κ} {Q : A → Type μ}
    → ((x : A) → P x ↔ Q x)
    → (xs : List A) → All P xs ↔ All Q xs
All-iff h [] = ((λ _. tt), (λ _. tt))
All-iff h (x ∷ xs) =
    let (to, from) = All-iff h xs in
    ((λ (p, ps). ((h x).0 p, to ps)), (λ (q, qs). ((h x).1 q, from qs)))

pub Result-split :
    {E A : Type 0} (r : Result E A) → ((a : A) × (r ≡ ok a)) ⊎ ((e : E) × (r ≡ err e))
Result-split (ok a) = inl (a, refl)
Result-split (err e) = inr (e, refl)

-- Inversion of a successful bind.
pub >>=-ok :
    {E A B : Type 0} (m : Result E A) (f : A → Result E B) {b : B}
    → (m >>= f) ≡ ok b
    → (a : A) × (m ≡ ok a) × (f a ≡ ok b)
>>=-ok (ok a) f h = (a, refl, h)
>>=-ok (err e) f h = cc
