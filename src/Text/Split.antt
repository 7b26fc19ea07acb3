-- ===== src/Text/Split.antt =====
-- `str::split` and `str::splitn` at one ASCII character.
use mathlib.Core.List.{append_assoc}
use reproit_cloud.Prelude.{
  ◌==◌, if◌then◌else◌, All, length, all, ℕ, zero, suc, ◌≡◌, refl, ap, ◌∙◌, Bool, true, not, List,
  [], ◌∷◌, ◌++◌, arith,
}
use reproit_cloud.Text.{Text}

abbrev push_head : ℕ → List Text → List Text
push_head b [] = (b ∷ []) ∷ []
push_head b (piece ∷ pieces) = (b ∷ piece) ∷ pieces

-- `value.split(separator)`: the pieces between the separators, one at least.
unfoldable pub split : ℕ → Text → List Text
split sep [] = [] ∷ []
split sep (b ∷ bs) =
    let pieces = split sep bs in if b == sep then [] ∷ pieces else push_head b pieces

-- `value.splitn(count, separator)`: no more pieces than the count, the last with all the rest.
unfoldable pub splitn : ℕ → ℕ → Text → List Text
splitn zero sep bs = []
splitn (suc zero) sep bs = bs ∷ []
splitn (suc (suc n)) sep [] = [] ∷ []
splitn (suc (suc n)) sep (b ∷ bs) =
    let cut = [] ∷ splitn (suc n) sep bs in
    let longer = push_head b (splitn (suc (suc n)) sep bs) in if b == sep then cut else longer

-- No byte of the text is the separator.
abbrev pub lacks : ℕ → Text → Bool
lacks sep = all (λ b. not (b == sep))

pub split-append :
    (sep : ℕ) (piece rest : Text)
    → lacks sep piece ≡ true
    → split sep (piece ++ sep ∷ rest) ≡ piece ∷ split sep rest
unfolding split
split-append sep [] rest h = ground arith
split-append sep (b ∷ bs) rest h = ground (arith, split-append sep bs rest)

pub splitn-append :
    (n sep : ℕ) (piece rest : Text)
    → lacks sep piece ≡ true
    → splitn (suc (suc n)) sep (piece ++ sep ∷ rest) ≡ piece ∷ splitn (suc n) sep rest
unfolding splitn
splitn-append n sep [] rest h = ground arith
splitn-append n sep (b ∷ bs) rest h = ground (arith, splitn-append n sep bs rest)

-- Fields with a separator behind each, and a last text.
abbrev pub join : ℕ → List Text → Text → Text
join sep [] last = last
join sep (piece ∷ pieces) last = piece ++ (sep ∷ join sep pieces last)

pub splitn-join :
    (sep : ℕ) (pieces : List Text) (last : Text)
    → All (λ piece. lacks sep piece ≡ true) pieces
    → splitn (suc (length pieces)) sep (join sep pieces last) ≡ pieces ++ (last ∷ [])
unfolding splitn
splitn-join sep [] last h = refl
splitn-join sep (piece ∷ pieces) last (h, hs) =
    splitn-append (length pieces) sep piece (join sep pieces last) h
    ∙ ap (◌∷◌ piece) (splitn-join sep pieces last hs)

pub split-join :
    (sep : ℕ) (pieces : List Text) (last : Text)
    → All (λ piece. lacks sep piece ≡ true) pieces
    → split sep (join sep pieces last) ≡ pieces ++ split sep last
split-join sep [] last h = refl
split-join sep (piece ∷ pieces) last (h, hs) =
    split-append sep piece (join sep pieces last) h ∙ ap (◌∷◌ piece) (split-join sep pieces last hs)

-- A text without the separator is one piece.
pub split-lacks : (sep : ℕ) (piece : Text) → lacks sep piece ≡ true → split sep piece ≡ piece ∷ []
unfolding split
split-lacks sep [] h = refl
split-lacks sep (b ∷ bs) h = ground (arith, split-lacks sep bs (ground (arith, h)))

-- What follows the fields and their last text follows the last text.
pub join_behind :
    (sep : ℕ) (pieces : List Text) (last more : Text)
    → join sep pieces last ++ more ≡ join sep pieces (last ++ more)
join_behind sep [] last more = refl
join_behind sep (piece ∷ pieces) last more =
    append_assoc piece (sep ∷ join sep pieces last) more
    ∙ ap (λ t. piece ++ (sep ∷ t)) (join_behind sep pieces last more)
