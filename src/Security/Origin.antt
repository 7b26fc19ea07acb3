-- ===== src/Security/Origin.antt =====
-- The origin check of src/http_security.rs. `str::trim` is an argument, and so are the settings of the
-- environment and the headers of a request.
pub mod Decision
use reproit_cloud.Text.{is_ascii_uppercase, starts_with, Text, lit, text_eq}
use reproit_cloud.Text.Split.{split}
use reproit_cloud.Prelude.{
  ◌==◌, if◌then◌else◌, is_empty, drop, any, ℕ, ◌+◌, Bool, true, false, not, ◌||◌, Option, none,
  some, List, [], ◌∷◌, ◌++◌, map,
}

-- `to_ascii_lowercase`
unfoldable pub lower_byte : ℕ → ℕ
lower_byte b = if is_ascii_uppercase b then b + 32 else b

abbrev pub to_ascii_lowercase : Text → Text
to_ascii_lowercase = map lower_byte

abbrev pub scheme_end : Text
scheme_end = lit "://"

abbrev pub longer : ℕ → Option (Text × Text) → Option (Text × Text)
longer b none = none
longer b (some (head, rest)) = some (b ∷ head, rest)

-- `url.split_once("://")`
unfoldable pub split_scheme : Text → Option (Text × Text)
split_scheme [] = none
split_scheme (b ∷ bs) =
    let found = longer b (split_scheme bs) in
    if starts_with (b ∷ bs) scheme_end then some ([], drop 2 bs) else found

abbrev pub ends_authority : ℕ → Bool
ends_authority b = b == b'/' || b == b'?' || b == b'#'

-- `rest.split(['/', '?', '#']).next()`
unfoldable pub authority_of : Text → Text
authority_of [] = []
authority_of (b ∷ bs) = let rest = authority_of bs in if ends_authority b then [] else b ∷ rest

abbrev pub make_origin : Option (Text × Text) → Option Text
make_origin none = none
make_origin (some (scheme, rest)) =
    if is_empty scheme || is_empty rest || is_empty (authority_of rest)
    then none
    else some (to_ascii_lowercase scheme ++ scheme_end ++ authority_of rest)

unfoldable pub origin_of : Text → Option Text
unfolding split_scheme authority_of lower_byte starts_with
origin_of url = make_origin (split_scheme url)

abbrev pub has_origin : List Text → Text → Bool
has_origin allowed o = any (λ a. text_eq a o) allowed

abbrev pub push_new : List Text → Option Text → List Text
push_new allowed none = allowed
push_new allowed (some o) = if has_origin allowed o then allowed else allowed ++ (o ∷ [])

unfoldable pub push_all : (Text → Text) → List Text → List Text → List Text
unfolding origin_of
push_all trim allowed [] = allowed
push_all trim allowed (raw ∷ list) = push_all trim (push_new allowed (origin_of (trim raw))) list

abbrev pub first_allowed : Option Text → List Text
first_allowed none = []
first_allowed (some o) = o ∷ []

abbrev pub cors_entries : Option Text → List Text
cors_entries none = []
cors_entries (some list) = split b',' list

-- `csrf_allowed_origins`, with REPROIT_PUBLIC_URL and REPROIT_CORS_ORIGINS where they are set.
unfoldable pub csrf_allowed_origins : (Text → Text) → Option Text → Option Text → Option (List Text)
unfolding push_all origin_of split
csrf_allowed_origins trim none cors = none
csrf_allowed_origins trim (some public) cors =
    if is_empty (trim public)
    then none
    else some (push_all trim (first_allowed (origin_of (trim public))) (cors_entries cors))

abbrev pub or_whole : Text → Option Text → Text
or_whole o none = o
or_whole o (some normalized) = normalized

unfoldable pub csrf_origin_allowed : Option Text → List Text → Bool
unfolding origin_of
csrf_origin_allowed none allowed = true
csrf_origin_allowed (some o) allowed = has_origin allowed (or_whole o (origin_of o))

pub data Method : Type 0 where
  get head options post put patch delete : Method

abbrev pub is_unsafe : Method → Bool
is_unsafe get = false
is_unsafe head = false
is_unsafe options = false
is_unsafe post = true
is_unsafe put = true
is_unsafe patch = true
is_unsafe delete = true

abbrev pub referer_origin : Option Text → Option Text
referer_origin none = none
referer_origin (some r) = origin_of r

-- `Origin`, or else the origin of `Referer`.
abbrev pub claimed_origin : Option Text → Option Text → Option Text
claimed_origin (some o) referer = some o
claimed_origin none referer = referer_origin referer

abbrev pub checked : Option Text → Option (List Text) → Bool
checked claimed none = true
checked claimed (some allowed) = csrf_origin_allowed claimed allowed

-- `csrf_origin_check`: whether the request goes on.
unfoldable pub csrf_origin_check :
    (Text → Text) → Option Text → Option Text → Method → Option Text → Option Text → Bool
unfolding csrf_allowed_origins csrf_origin_allowed
csrf_origin_check trim public cors method origin referer =
    not (is_unsafe method)
    || checked (claimed_origin origin referer) (csrf_allowed_origins trim public cors)
