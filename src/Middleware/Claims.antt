-- ===== src/Middleware/Claims.antt =====
-- middleware/jwt.go, middleware/middleware.go and middleware/role.go: the claims of a token, the values
-- of a request's context, and the check of realm roles.
pub mod Access
mod Tests
use gframework.Base.{
  ℕ, String, ◌≡◌, Bool, true, false, not, Option, none, some, List, [], ◌∷◌, any, contains, lookup,
  str_eq, if◌then◌else◌,
}
use gframework.Errors.{GoError, sentinel, Result, ok, err}

-- The claims that the package's functions read.
pub record ExtendedClaims : Type 0 where
  pub subject : String
  pub azp : String
  pub realm_access : List String
  pub resource_access : List (String × List String)

unfoldable pub has_realm_role : ExtendedClaims → String → Bool
has_realm_role c role = contains c.realm_access role

pub get_realm_roles : ExtendedClaims → List String
get_realm_roles c = c.realm_access

abbrev roles_or_nil : Option (List String) → List String
roles_or_nil none = []
roles_or_nil (some roles) = roles

pub get_resource_roles : ExtendedClaims → String → List String
get_resource_roles c resource = roles_or_nil (lookup resource c.resource_access)

abbrev role_in : Option (List String) → String → Bool
role_in none role = false
role_in (some roles) role = contains roles role

pub has_resource_role : ExtendedClaims → String → String → Bool
has_resource_role c resource role = role_in (lookup resource c.resource_access) role

-- jwt.Claims: the package's own, or those that another `NewClaimsFunc` makes.
pub data TokenClaims : Type 0 where
  extended : ExtendedClaims → TokenClaims
  foreign_claims : TokenClaims

-- jwt.Token
pub record Token : Type 0 where
  pub raw : String
  pub token_claims : TokenClaims

-- A value stored in Echo's context under a key.
pub data Stored : Type 0 where
  token : Token → Stored
  text : String → Stored
  number : ℕ → Stored
  claims : ExtendedClaims → Stored
  other : Stored

pub record Context : Type 0 where
  pub values : String → Option Stored

-- echo.Context.Set
unfoldable pub set : String → Stored → Context → Context
set key value ctx = record { values = λ k. if str_eq key k then some value else ctx.values k }

-- A text of the context, or the fallback: `GetTenantID`, `GetAPIKey`, `GetToken` and `GetHandler`
-- fall back on "", `GetRequestID` on a fresh UUID.
abbrev pub text_or : String → Option Stored → String
text_or fallback none = fallback
text_or fallback (some (text s)) = s
text_or fallback (some (number n)) = fallback
text_or fallback (some (token t)) = fallback
text_or fallback (some (claims c)) = fallback
text_or fallback (some other) = fallback

pub get_tenant_id : Context → String
get_tenant_id ctx = text_or "" (ctx.values "tenantID")

pub get_api_key : Context → String
get_api_key ctx = text_or "" (ctx.values "apiKey")

pub get_request_id : String → Context → String
get_request_id fresh ctx = text_or fresh (ctx.values "requestID")

pub get_token : Context → String
get_token ctx = text_or "" (ctx.values "token")

pub get_handler : Context → String
get_handler ctx = text_or "" (ctx.values "handler")

abbrev number_or_zero : Option Stored → ℕ
number_or_zero none = 0
number_or_zero (some (text s)) = 0
number_or_zero (some (number n)) = n
number_or_zero (some (token t)) = 0
number_or_zero (some (claims c)) = 0
number_or_zero (some other) = 0

pub get_rate_limit_requests : Context → ℕ
get_rate_limit_requests ctx = number_or_zero (ctx.values "rateLimitRequests")

pub get_rate_limit_window : Context → ℕ
get_rate_limit_window ctx = number_or_zero (ctx.values "rateLimitWindow")

abbrev claims_of : Option Stored → Result ExtendedClaims
claims_of none = err (sentinel "ErrClaimsNotFound")
claims_of (some (claims c)) = ok c
claims_of (some (text s)) = err (sentinel "ErrClaimsTypeAssertionFailed")
claims_of (some (number n)) = err (sentinel "ErrClaimsTypeAssertionFailed")
claims_of (some (token t)) = err (sentinel "ErrClaimsTypeAssertionFailed")
claims_of (some other) = err (sentinel "ErrClaimsTypeAssertionFailed")

unfoldable pub get_extended_claims_from_context : Context → Result ExtendedClaims
get_extended_claims_from_context ctx = claims_of (ctx.values "claims")

pub current_user_id : Context → Result String
unfolding get_extended_claims_from_context
current_user_id ctx = elim (get_extended_claims_from_context ctx) [
  | err e ↦ err (sentinel "ErrMissingJWTClaims")
  | ok c ↦ if str_eq c.subject "" then err (sentinel "ErrJWTSubjectEmpty") else ok c.subject
]

-- What a middleware returns: an *echo.HTTPError with its code and the error whose text is its
-- message, or what the next handler returned.
pub data Reply (A : Type 0) : Type 0 where
  http_error : ℕ → GoError → Reply A
  passed : A → Reply A

-- slices.ContainsFunc(roles, claims.HasRealmRole)
abbrev pub any_role : ExtendedClaims → List String → Bool
any_role c roles = any (has_realm_role c) roles

-- middleware/role.go; `next` runs only if it is asked for.
unfoldable pub require_any_realm_role :
    {A : Type 0} → List String → (Context → A) → Context → Reply A
unfolding get_extended_claims_from_context has_realm_role
require_any_realm_role [] next ctx = http_error 500 (sentinel "ErrRealmRolesEmpty")
require_any_realm_role (role ∷ roles) next ctx = elim (get_extended_claims_from_context ctx) [
  | err e ↦ http_error 401 e
  | ok c ↦
      if any_role c (role ∷ roles)
      then passed (next ctx)
      else http_error 403 (sentinel "ErrRealmRoleForbidden")
]
