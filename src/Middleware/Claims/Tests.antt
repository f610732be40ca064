-- ===== src/Middleware/Claims/Tests.antt =====
-- Runs of middleware/jwt.go and middleware/role.go, and a concrete use of what is proved of them.
use gframework.Base.{String, ◌≡◌, refl, none, some, List, [], ◌∷◌, str_eq, if◌then◌else◌}
use gframework.Errors.{sentinel, ok}
use gframework.Middleware.Claims.{
  ExtendedClaims, Context, text, claims, current_user_id, http_error, require_any_realm_role,
  get_tenant_id,
}

abbrev ann : ExtendedClaims
ann = record {
  subject = "ann";
  azp = "web";
  realm_access = "viewer" ∷ "admin" ∷ [];
  resource_access = [];
}

abbrev signed_in : Context
signed_in = record {
  values = λ key.
      if str_eq key "claims"
      then some (claims ann)
      else if str_eq key "tenantID"
      then some (text "acme")
      else none;
}

abbrev staff : List String
staff = "operator" ∷ "admin" ∷ []

abbrev subject_of : Context → String
subject_of ctx = "welcome"

runs :
    (current_user_id signed_in ≡ ok "ann")
    × (get_tenant_id signed_in ≡ "acme")
    × (require_any_realm_role ("root" ∷ []) subject_of signed_in
        ≡ http_error 403 (sentinel "ErrRealmRoleForbidden"))
    × (require_any_realm_role staff subject_of (record { values = λ key. none })
        ≡ http_error 401 (sentinel "ErrClaimsNotFound"))
unfolding current_user_id get_tenant_id require_any_realm_role
runs = (refl, refl, refl, refl)
