-- ===== src/Protocol/Causal/Maps.antt =====
-- The maps of the validation: the degree of each id, and the ids behind each id.
use reproit_cloud.Prelude.{if◌then◌else◌, ℕ, Option, none, some, List, [], ◌∷◌, ◌++◌}
use reproit_cloud.Text.{Text, text_eq}

abbrev pub Degrees : Type 0
Degrees = List (Text × ℕ)

abbrev pub Outgoing : Type 0
Outgoing = List (Text × List Text)

-- `map.get(key)`
unfoldable pub degree_of : Text → Degrees → Option ℕ
degree_of key [] = none
degree_of key ((k, d) ∷ degrees) = if text_eq k key then some d else degree_of key degrees

-- `*map.get_mut(key)` changed by a function
unfoldable pub adjust : (ℕ → ℕ) → Text → Degrees → Degrees
adjust f key [] = []
adjust f key ((k, d) ∷ degrees) = (k, (if text_eq k key then f d else d)) ∷ adjust f key degrees

-- `outgoing.get(id).into_iter().flatten()`
unfoldable pub nexts_of : Text → Outgoing → List Text
nexts_of key [] = []
nexts_of key ((k, nexts) ∷ outgoing) = if text_eq k key then nexts else nexts_of key outgoing

-- `outgoing.entry(key).or_default().push(next)`
unfoldable pub push_next : Text → Text → Outgoing → Outgoing
push_next key next [] = (key, next ∷ []) ∷ []
push_next key next ((k, nexts) ∷ outgoing) =
    let later = (k, nexts) ∷ push_next key next outgoing in
    if text_eq k key then (k, nexts ++ (next ∷ [])) ∷ outgoing else later
