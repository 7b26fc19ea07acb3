-- ===== src/Tenancy/Blob.antt =====
-- src/tenancy/blob.rs: the keys under which a tenant's blobs are stored.
pub mod Isolation
use reproit_cloud.Text.Split.{split}
use reproit_cloud.Text.{starts_with, Text, lit, text_eq}
use reproit_cloud.Prelude.{
  ◌==◌, if◌then◌else◌, is_empty, any, ℕ, Bool, not, ◌&&◌, ◌||◌, Option, none, some, [], ◌∷◌, ◌++◌,
}

-- `trim_start_matches('/')`, which is `safe_key`
unfoldable pub safe_key : Text → Text
safe_key [] = []
safe_key (b ∷ bs) = let rest = safe_key bs in if b == b'/' then rest else b ∷ bs

abbrev or_nothing : ℕ → Text → Text
or_nothing b [] = if b == b'/' then [] else b ∷ []
or_nothing b (c ∷ cs) = b ∷ c ∷ cs

-- `trim_end_matches('/')`
unfoldable pub trim_end_slashes : Text → Text
trim_end_slashes [] = []
trim_end_slashes (b ∷ bs) = or_nothing b (trim_end_slashes bs)

-- `trim_matches('/')`
unfoldable pub trim_slashes : Text → Text
unfolding safe_key trim_end_slashes
trim_slashes scope = trim_end_slashes (safe_key scope)

-- `seg == ".." || seg == "." || seg.is_empty()`
abbrev pub is_bad_segment : Text → Bool
is_bad_segment seg = text_eq seg (lit "..") || text_eq seg (lit ".") || is_empty seg

unfoldable pub is_safe_key : Text → Bool
unfolding split
is_safe_key key =
    not (is_empty key)
    && not (starts_with key (lit "/"))
    && not (any is_bad_segment (split b'/' key))

unfoldable pub scoped : Text → Text → Text
unfolding trim_slashes
scoped scope key = if is_empty scope then key else trim_slashes scope ++ b'/' ∷ key

unfoldable pub safe_scoped : Text → Text → Option Text
unfolding scoped is_safe_key
safe_scoped scope key = let full = scoped scope key in if is_safe_key full then some full else none

-- `delete_scope`: the prefix that is deleted, which is never that of the whole store.
unfoldable pub delete_scope : Text → Option Text
unfolding trim_slashes
delete_scope scope =
    let prefix = trim_slashes scope in if is_empty prefix then none else some prefix
