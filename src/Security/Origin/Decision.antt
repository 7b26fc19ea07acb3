-- ===== src/Security/Origin/Decision.antt =====
-- Which requests pass the origin check of src/http_security.rs.
use reproit_cloud.Security.Origin.{origin_of}
use reproit_cloud.Prelude.{◌≡◌, ◌⊎◌, some, List, [], ◌∷◌}
use reproit_cloud.Text.{Text}

-- One of the configured addresses has the origin.
abbrev pub Listed : (Text → Text) → Text → List Text → Type 0
Listed trim o [] = ⊥
Listed trim o (raw ∷ list) = (origin_of (trim raw) ≡ some o) ⊎ Listed trim o list
