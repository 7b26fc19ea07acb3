-- ===== src/Security/Tests.antt =====
-- The checks of src/http_security.rs on concrete requests.
use reproit_cloud.Security.Origin.{csrf_origin_check, origin_of, post}
use reproit_cloud.Security.Host.{ct_eq, normalize_host}
use reproit_cloud.Security.Host.Equal.{ct_eq_iff}
use reproit_cloud.Prelude.{◌≡◌, refl, ◌↔◌, true, false, none, some}
use reproit_cloud.Text.{text_eq, starts_with, Text, lit}

abbrev untrimmed : Text → Text
untrimmed s = s

origin_test :
    origin_of (lit "HTTPS://app.example:8443/path?q") ≡ some (lit "https://app.example:8443")
unfolding origin_of
origin_test = refl

-- Only the scheme is lowered, not the host.
origin_case_test : origin_of (lit "https://App.Example") ≡ some (lit "https://App.Example")
unfolding origin_of
origin_case_test = refl

no_scheme_test : origin_of (lit "about:blank") ≡ none
unfolding origin_of
no_scheme_test = refl

host_test : normalize_host untrimmed (lit "[::1]:8080") ≡ some (lit "[::1]")
unfolding normalize_host starts_with
host_test = refl

foreign_test :
    csrf_origin_check untrimmed
      (some (lit "https://app.example/"))
      none
      post
      (some (lit "https://evil.example"))
      none
    ≡ false
unfolding csrf_origin_check text_eq
foreign_test = refl

ct_eq_iff_example : (ct_eq (lit "token") (lit "token") ≡ true) ↔ (lit "token" ≡ lit "token")
ct_eq_iff_example = ct_eq_iff (lit "token") (lit "token")
