-- ===== src/Keycloak/Uma/Tests.antt =====
-- Runs of keycloak/uma.go and keycloak/helpers.go, and concrete uses of what is proved of them.
use gframework.Base.{ℕ, suc, ◌≡◌, refl, true, false, none, some, [], ◌∷◌}
use gframework.Errors.{sentinel, wrap, ok, err}
use gframework.Keycloak.Uma.{
  UmaClient, Http, invalid_response, check, role_names, send, answered, decision, unexpected_status,
}

-- A server that answers with a status; the state counts the requests.
abbrev answers : ℕ → Http ℕ
answers status = record {
  bad_url = λ url. none;
  perform = λ req w. (ok (record { status = status; body = ok "?" }), suc w);
}

abbrev client : UmaClient
client = record { token_endpoint = "https://kc/token"; audience = "docs" }

runs :
    (check (answers 200) client "t" "document:42" "read" 0 ≡ (ok true, 1))
    × (check (answers 403) client "t" "document:42" "read" 0 ≡ (ok false, 1))
    × (check (answers 401) client "t" "document:42" "read" 0
        ≡ (err (wrap "?" (sentinel invalid_response)), 1))
    × (check (answers 200) client "t" "" "read" 0
        ≡ (err (wrap "Check requires" (sentinel "ErrInvalidInput")), 0))
    × (role_names (some (some "admin") ∷ (none ∷ (some none ∷ []))) ≡ "admin" ∷ [])
unfolding check role_names send answered decision unexpected_status
runs = (refl, refl, refl, refl, refl)
