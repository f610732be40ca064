-- ===== src/Middleware/Jwt.antt =====
-- middleware/jwt.go: the bearer token of a request, and what a handler finds of it in its context.
-- Logging is left out.
pub mod Access
mod Tests
use gframework.Base.{
  ℕ, String, ◌≡◌, Bool, true, false, ◌⊎◌, inl, inr, Option, none, some, List, [], ◌∷◌, str_eq,
  if◌then◌else◌,
}
use gframework.Errors.{GoError, sentinel, Result, ok, err}
use gframework.Middleware.Claims.{
  ExtendedClaims, TokenClaims, extended, foreign_claims, Token, Stored, text, number, token, claims,
  other, Context, set, Reply, http_error,
}

-- What a verifier gets when it asks for the key of a token.
pub data KeyAnswer : Type 0 where
  key : String → KeyAnswer
  no_key : GoError → KeyAnswer
  nil_panic : KeyAnswer

-- The functions may be nil.
pub record JwtConfig : Type 0 where
  pub skipper : Option (Context → Bool)
  pub keyfunc : Option (Token → Result String)
  pub new_claims_func : Option (Context → TokenClaims)
  pub context_key : String
  pub token_lookup : String

abbrev default_skipper : Context → Bool
default_skipper ctx = false

abbrev nobody : ExtendedClaims
nobody = record { subject = ""; azp = ""; realm_access = []; resource_access = [] }

pub default_new_claims_func : Context → TokenClaims
default_new_claims_func ctx = extended nobody

pub default_jwt_config : JwtConfig
default_jwt_config = record {
  skipper = some default_skipper;
  keyfunc = none;
  new_claims_func = some default_new_claims_func;
  context_key = "user";
  token_lookup = "";
}

-- echojwt.Config, and an error of the extractor or the verifier by its text. An *echo.HTTPError is its
-- code with the package's error.
pub record EchoJwtConfig : Type 0 where
  pub context_key : String
  pub token_lookup : String
  pub key_func : Token → KeyAnswer
  pub new_claims_func : Context → TokenClaims
  pub success_handler : Context → Option GoError × Context
  pub error_handler : String → ℕ × GoError
  pub continue_on_ignored_error : Bool

abbrev pub with_claims : TokenClaims → Context → Context
with_claims (extended c) ctx = set "claims" (claims c) ctx
with_claims foreign_claims ctx = ctx

abbrev with_token : Option Stored → Context → Context
with_token (some (token t)) ctx = with_claims t.token_claims (set "token" (text t.raw) ctx)
with_token (some (text s)) ctx = ctx
with_token (some (number n)) ctx = ctx
with_token (some (claims c)) ctx = ctx
with_token (some other) ctx = ctx
with_token none ctx = ctx

pub create_success_handler : Context → Option GoError × Context
create_success_handler ctx = (none, with_token (ctx.values "user") ctx)

pub create_error_handler : String → ℕ × GoError
create_error_handler message =
    if str_eq message "missing value in request header"
    then (401, sentinel "ErrTokenRequired")
    else (401, sentinel "ErrInvalidToken")

-- The function that wraps `config.Keyfunc.Keyfunc`.
abbrev key_answer : Option (Token → Result String) → Token → KeyAnswer
key_answer none t = nil_panic
key_answer (some f) t = elim (f t) [ ok k ↦ key k | err e ↦ no_key e ]

-- A `nil` function gets the package's default before.
abbrev claims_func_or_default : Option (Context → TokenClaims) → Context → TokenClaims
claims_func_or_default none = default_new_claims_func
claims_func_or_default (some f) = f

abbrev pub skipper_or_default : Option (Context → Bool) → Context → Bool
skipper_or_default none = default_skipper
skipper_or_default (some f) = f

abbrev pub context_key_or_default : String → String
context_key_or_default name = if str_eq name "" then "user" else name

pub build_jwt_config : JwtConfig → EchoJwtConfig
build_jwt_config config = record {
  context_key = context_key_or_default config.context_key;
  token_lookup = config.token_lookup;
  key_func = key_answer config.keyfunc;
  new_claims_func = claims_func_or_default config.new_claims_func;
  success_handler = create_success_handler;
  error_handler = create_error_handler;
  continue_on_ignored_error = false;
}

-- `with_config` is echojwt.WithConfig: a middleware for a configuration.
module _ {A : Type 0} (with_config : EchoJwtConfig → (Context → Reply A) → Context → Reply A) where
  pub jwt_with_config : JwtConfig → (Context → Reply A) → Context → Reply A
  jwt_with_config config next ctx =
      if skipper_or_default config.skipper ctx
      then next ctx
      else with_config (build_jwt_config config) next ctx

  pub jwt : Option (Token → Result String) → (Context → Reply A) → Context → Reply A
  jwt kf = jwt_with_config (record default_jwt_config { keyfunc = kf })

-- What echojwt's documentation says of the middleware: a request whose token is missing or refused ends
-- with the error handler's error; a token that is accepted is stored under the configured key, and if the
-- success handler has no objection the next handler runs.
pub record EchoJwt (A : Type 0) : Type 0 where
  pub with_config : EchoJwtConfig → (Context → Reply A) → Context → Reply A
  pub verify : EchoJwtConfig → Context → String ⊎ Token
  pub refuses :
      (cfg : EchoJwtConfig) (next : Context → Reply A) (ctx : Context) (message : String)
      → verify cfg ctx ≡ inl message
      → with_config cfg next ctx
        ≡ http_error (cfg.error_handler message).0 (cfg.error_handler message).1
  pub accepts :
      (cfg : EchoJwtConfig) (next : Context → Reply A) (ctx after : Context) (t : Token)
      → verify cfg ctx ≡ inr t
      → cfg.success_handler (set cfg.context_key (token t) ctx) ≡ (none, after)
      → with_config cfg next ctx ≡ next after
