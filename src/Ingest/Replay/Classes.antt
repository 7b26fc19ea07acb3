-- ===== src/Ingest/Replay/Classes.antt =====
-- A replay package carries no typed value, only the class of one.
use reproit_cloud.Text.Once.{rsplit_once, or_here}
use reproit_cloud.Ingest.Replay.{
  is_class, is_class_byte, types_class, is_role_selector, is_structural_tap_action, replay_actions,
  kept_actions, is_safe_type_action, is_replay_action, strip_prefix, type_parts,
}
use reproit_cloud.Text.Compare.{append_of_starts_with}
use reproit_cloud.Prelude.{
  ◌==◌, if◌then◌else◌, ==_iff, Bool-cases, &&-true, All, length, drop, all, ℕ, ◌≤◌, ◌≡◌, refl, ap,
  subst, ◌∙◌, ◌⊎◌, inl, inr, true, false, ◌||◌, Option, none, some, List, [], ◌∷◌, ◌++◌, arith,
  some_eq,
}
use reproit_cloud.Text.{Text, lit, text_eq, starts_with, is_ascii_lowercase, is_ascii_digit}
use reproit_cloud.Ingest.Aggregation.{Step, ErrorRec}

-- A lower case letter, a digit, `_` or `-`.
abbrev pub IsClassByte : ℕ → Type 0
IsClassByte b = ((97 ≤ b) × (b ≤ 122)) ⊎ ((48 ≤ b) × (b ≤ 57)) ⊎ (b ≡ 95) ⊎ (b ≡ 45)

-- The action types into a selector, and what stands behind its last `=` is a class: between 1 and 32
-- lower case letters, digits, `_` and `-`.
pub record TypesClass (a : Text) : Type 0 where
  pub sel : Text
  pub class : Text
  pub whole : a ≡ lit "type:" ++ sel ++ b'=' ∷ class
  pub some_byte : 1 ≤ length class
  pub short : length class ≤ 32
  pub plain : All IsClassByte class

class_byte : (b : ℕ) → is_class_byte b ≡ true → IsClassByte b
class_byte b h = elim (Bool-cases (is_ascii_lowercase b)) [
  | inl e ↦ inl (ground arith, ground arith)
  | inr e ↦ inr (elim (Bool-cases (is_ascii_digit b)) [
    | inl f ↦ inl (ground arith, ground arith)
    | inr f ↦
        inr (elim (Bool-cases (b == b'_')) [
          | inl g ↦ inl (ground arith)
          | inr g ↦ inr (ground arith)
        ])
  ])
]

class_bytes : (class : Text) → all is_class_byte class ≡ true → All IsClassByte class
class_bytes [] h = tt
class_bytes (b ∷ bs) h = (class_byte b (ground (arith, h)), class_bytes bs (ground (arith, h)))

class_length : (class : Text) → is_class class ≡ true → (1 ≤ length class) × (length class ≤ 32)
class_length [] h = absurd (ground arith)
class_length (b ∷ bs) h = (omega arith, ground (arith, h))

class_plain : (class : Text) → is_class class ≡ true → All IsClassByte class
class_plain class h = class_bytes class (ground (arith, h))

here_join :
    (sep b : ℕ) (bs : Text) (o : Option (Text × Text)) (head rest : Text)
    → ((h r : Text) → o ≡ some (h, r) → bs ≡ h ++ sep ∷ r)
    → or_here sep b bs o ≡ some (head, rest)
    → b ∷ bs ≡ head ++ sep ∷ rest
here_join sep b bs (some (h, r)) head rest joined e =
    let same = some_eq e in
    ap (λ t. b ∷ t) (joined h r refl) ∙ ap (λ (p : Text × Text). p.0 ++ sep ∷ p.1) same
here_join sep b bs none head rest joined e =
    let found : Option (Text × Text) = some ([], bs) in
    elim (Bool-cases (b == sep)) [
      | inl k ↦
          let same = some_eq (subst (λ t. (if t then found else none) ≡ some (head, rest)) k e) in
          ap (λ c. c ∷ bs) ((==_iff b sep).0 k) ∙ ap (λ (p : Text × Text). p.0 ++ sep ∷ p.1) same
      | inr k ↦
          let clash = subst (λ t. (if t then found else none) ≡ some (head, rest)) k e in
          absurd (ground arith)
    ]

rsplit_once_join :
    (sep : ℕ) (s head rest : Text) → rsplit_once sep s ≡ some (head, rest) → s ≡ head ++ sep ∷ rest
unfolding rsplit_once
rsplit_once_join sep [] head rest h = absurd (ground arith)
rsplit_once_join sep (b ∷ bs) head rest h =
    here_join sep b bs (rsplit_once sep bs) head rest (λ h' r' e. rsplit_once_join sep bs h' r' e) h

types_class-TypesClass :
    (a rest : Text) (o : Option (Text × Text))
    → a ≡ lit "type:" ++ rest
    → rsplit_once b'=' rest ≡ o
    → types_class o ≡ true
    → TypesClass a
types_class-TypesClass a rest none e r h = absurd (ground arith)
types_class-TypesClass a rest (some (sel, class)) e r h =
    let c = (&&-true (starts_with sel (lit "key:") || is_role_selector sel) (is_class class) h).1 in
    record {
      sel = sel;
      class = class;
      whole = e ∙ ap (λ t. lit "type:" ++ t) (rsplit_once_join b'=' rest sel class r);
      some_byte = (class_length class c).0;
      short = (class_length class c).1;
      plain = class_plain class c;
    }

type_not_key : (a : Text) → starts_with a (lit "type:") ≡ true → starts_with a (lit "key:") ≡ false
unfolding starts_with
type_not_key [] h = absurd (ground arith)
type_not_key (b ∷ bs) h = ground (arith, h)

type_not_tap : (a : Text) → starts_with a (lit "type:") ≡ true → starts_with a (lit "tap:") ≡ false
unfolding starts_with
type_not_tap [] h = absurd (ground arith)
type_not_tap (b ∷ []) h = absurd (ground (arith, h))
type_not_tap (b ∷ c ∷ bs) h = ground (arith, h)

type_not_back : (a : Text) → starts_with a (lit "type:") ≡ true → text_eq a (lit "back") ≡ false
unfolding starts_with text_eq
type_not_back [] h = absurd (ground arith)
type_not_back (b ∷ bs) h = ground (arith, h)

not_tap : (a : Text) → starts_with a (lit "tap:") ≡ false → is_structural_tap_action a ≡ false
unfolding is_structural_tap_action strip_prefix
not_tap a h = rw h refl

typed_action :
    (a : Text) → starts_with a (lit "type:") ≡ true → is_safe_type_action a ≡ true → TypesClass a
unfolding is_safe_type_action strip_prefix
typed_action a h safe =
    types_class-TypesClass a (drop 5 a) (rsplit_once b'=' (drop 5 a))
      (append_of_starts_with a (lit "type:") h) refl
      (subst (λ t. types_class (type_parts (if t then some (drop 5 a) else none)) ≡ true) h safe)

replay_action-typed :
    (a : Text) → is_replay_action a ≡ true → starts_with a (lit "type:") ≡ true → TypesClass a
unfolding is_replay_action
replay_action-typed a r h =
    let safe : is_safe_type_action a ≡ true =
      ground (arith, r, type_not_back a h, type_not_key a h, not_tap a (type_not_tap a h)) in
    typed_action a h safe

kept_actions-typed :
    (path : List Step)
    → All (λ a. starts_with a (lit "type:") ≡ true → TypesClass a) (kept_actions path)
kept_actions-typed [] = tt
kept_actions-typed (s ∷ path) = elim (Bool-cases (is_replay_action s.action)) [
  | inl e ↦ rw e (replay_action-typed s.action e, kept_actions-typed path)
  | inr e ↦ rw e (kept_actions-typed path)
]

-- A typing action that a replay package carries ends with a `=` and a class of 1 to 32 bytes, each a
-- lower case letter, a digit, `_` or `-`, whatever steps the error recorded.
pub replay_actions_typed :
    {V : Type 0} (rec : ErrorRec V)
    → All (λ a. starts_with a (lit "type:") ≡ true → TypesClass a) (replay_actions rec)
unfolding replay_actions
replay_actions_typed rec = kept_actions-typed rec.path
