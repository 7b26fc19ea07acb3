-- ===== src/Text/Once.antt =====
-- `str::split_once` and `str::rsplit_once` at one ASCII character.
use reproit_cloud.Prelude.{
  ◌==◌, if◌then◌else◌, &&-true, ℕ, ◌≡◌, refl, true, not, Option, none, some, [], ◌∷◌, ◌++◌, arith,
}
use reproit_cloud.Text.{Text}
use reproit_cloud.Text.Split.{lacks}

abbrev longer_head : ℕ → Option (Text × Text) → Option (Text × Text)
longer_head b none = none
longer_head b (some (head, rest)) = some (b ∷ head, rest)

-- `value.split_once(separator)`: at the first separator.
unfoldable pub split_once : ℕ → Text → Option (Text × Text)
split_once sep [] = none
split_once sep (b ∷ bs) =
    let found = longer_head b (split_once sep bs) in if b == sep then some ([], bs) else found

abbrev pub or_here : ℕ → ℕ → Text → Option (Text × Text) → Option (Text × Text)
or_here sep b bs (some (head, rest)) = some (b ∷ head, rest)
or_here sep b bs none = if b == sep then some ([], bs) else none

-- `value.rsplit_once(separator)`: at the last separator.
unfoldable pub rsplit_once : ℕ → Text → Option (Text × Text)
rsplit_once sep [] = none
rsplit_once sep (b ∷ bs) = or_here sep b bs (rsplit_once sep bs)

pub split_once-append :
    (sep : ℕ) (head rest : Text)
    → lacks sep head ≡ true
    → split_once sep (head ++ sep ∷ rest) ≡ some (head, rest)
unfolding split_once
split_once-append sep [] rest h = ground arith
split_once-append sep (b ∷ bs) rest h = ground (arith, split_once-append sep bs rest)

rsplit_once-lacks : (sep : ℕ) (rest : Text) → lacks sep rest ≡ true → rsplit_once sep rest ≡ none
unfolding rsplit_once
rsplit_once-lacks sep [] h = refl
rsplit_once-lacks sep (b ∷ bs) h =
    let (a, k) = &&-true (not (b == sep)) (lacks sep bs) h in
    rw (rsplit_once-lacks sep bs k) (ground arith)

pub rsplit_once-append :
    (sep : ℕ) (head rest : Text)
    → lacks sep rest ≡ true
    → rsplit_once sep (head ++ sep ∷ rest) ≡ some (head, rest)
unfolding rsplit_once
rsplit_once-append sep [] rest h = rw (rsplit_once-lacks sep rest h) (ground arith)
rsplit_once-append sep (b ∷ bs) rest h = rw (rsplit_once-append sep bs rest h) refl
