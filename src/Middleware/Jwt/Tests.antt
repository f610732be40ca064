-- ===== src/Middleware/Jwt/Tests.antt =====
-- Runs of middleware/jwt.go, and a concrete use of what is proved of it.
use gframework.Base.{
  String, ◌≡◌, refl, ◌⊎◌, inl, inr, Option, none, some, [], ◌∷◌, str_eq, if◌then◌else◌,
}
use gframework.Errors.{GoError, sentinel}
use gframework.Middleware.Claims.{
  extended, Token, text, token, Stored, Context, set, Reply, http_error, passed,
  require_any_realm_role, has_realm_role, get_extended_claims_from_context,
}
use gframework.Middleware.Jwt.{
  JwtConfig, EchoJwtConfig, EchoJwt, default_jwt_config, jwt_with_config, build_jwt_config,
  create_success_handler, create_error_handler,
}
use gframework.Middleware.Jwt.Access.{guarded, Guarded, jwt_then_role-Guarded}

-- The header of these requests is a value of the context.
abbrev header : Option Stored → String ⊎ Token
header none = inl "missing value in request header"
header (some v) = inr (record {
  raw = "e30";
  token_claims =
      extended (record {
        subject = "ann";
        azp = "web";
        realm_access = "admin" ∷ [];
        resource_access = [];
      });
})

module _ {A : Type 0} where
  abbrev after_success : (Context → Reply A) → Option GoError × Context → Reply A
  after_success next (none, ctx) = next ctx
  after_success next (some e, ctx) = http_error 500 e

  abbrev settle : EchoJwtConfig → (Context → Reply A) → Context → String ⊎ Token → Reply A
  settle cfg next ctx (inl message) =
      http_error (cfg.error_handler message).0 (cfg.error_handler message).1
  settle cfg next ctx (inr t) =
      after_success next (cfg.success_handler (set cfg.context_key (token t) ctx))

abbrev bearer : EchoJwt String
bearer = record {
  with_config = λ cfg next ctx. settle cfg next ctx (header (ctx.values "header"));
  verify = λ cfg ctx. header (ctx.values "header");
  refuses = λ cfg next ctx message e. rw e refl;
  accepts = λ cfg next ctx after t e stored. rw (e, stored) refl;
}

abbrev request : Context
request = record { values = λ key. if str_eq key "header" then some (text "e30") else none }

abbrev bare : Context
bare = record { values = λ key. none }

abbrev custom : JwtConfig
custom = record {
  skipper = none;
  keyfunc = none;
  new_claims_func = none;
  context_key = "auth";
  token_lookup = "";
}

abbrev welcome : Context → String
welcome ctx = "welcome"

-- The last run has another context key.
runs :
    (guarded bearer default_jwt_config "admin" [] welcome request ≡ passed "welcome")
    × (guarded bearer default_jwt_config "root" [] welcome request
        ≡ http_error 403 (sentinel "ErrRealmRoleForbidden"))
    × (guarded bearer default_jwt_config "admin" [] welcome bare
        ≡ http_error 401 (sentinel "ErrTokenRequired"))
    × (guarded bearer custom "admin" [] welcome request
        ≡ http_error 401 (sentinel "ErrClaimsNotFound"))
unfolding default_jwt_config guarded jwt_with_config build_jwt_config create_success_handler
    create_error_handler set require_any_realm_role get_extended_claims_from_context has_realm_role
runs = (refl, refl, refl, refl)

jwt_then_role-Guarded_example :
    Guarded bearer default_jwt_config "admin" [] welcome request
      (guarded bearer default_jwt_config "admin" [] welcome request)
unfolding default_jwt_config
jwt_then_role-Guarded_example =
    jwt_then_role-Guarded bearer default_jwt_config "admin" [] welcome request refl refl refl
