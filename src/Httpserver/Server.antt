-- ===== src/Httpserver/Server.antt =====
-- httpserver/server.go: what a server is made of, the limit of a body, and the life of the server.
pub mod BodyLimit
mod Tests
use Prim.Native.Char.{code}
use Prim.Native.String
use gframework.Base.{
  ℕ, String, Bool, true, false, ◌||◌, ◌==◌, Option, none, some, List, [], ◌∷◌, ℤ, pos, ◌*ℤ◌,
  wrap_64, str_eq, if◌then◌else◌,
}
use gframework.Errors.{GoError, sentinel, wrap}
use gframework.Middleware.Claims.{Context, Stored}
use gframework.Middleware.ErrorHandler.{Effect, HandlerError, error_handler}
use gframework.Middleware.RequestLogger.{Fields, text_field, flag_field, LogFieldExtractor}

pub record Config : Type 0 where
  pub host : String
  pub port : ℤ
  pub enable_cors : Bool
  pub allow_origins : List String
  pub body_limit : String
  pub read_timeout : ℤ
  pub write_timeout : ℤ
  pub grace_period : ℤ

-- The middleware that a server is given, with its arguments.
pub data Middleware : Type 0 where
  request_logger : List LogFieldExtractor → Middleware
  body_limit : ℤ → Middleware
  cors : List String → Middleware

-- `started` says whether there is an http.Server. `pre` stands before the router and `used` behind it;
-- `http_error_handler` gets whether the response was sent and the error. The validator is always that of
-- package validator, and routes are Echo's; both are left out.
pub record Server : Type 0 where
  pub address : String
  pub grace_period : ℤ
  pub read_timeout : ℤ
  pub write_timeout : ℤ
  pub pre : List Middleware
  pub used : List Middleware
  pub http_error_handler : Bool → HandlerError → List Effect
  pub started : Bool

-- The last character, 0 without one; and the text before it.
last_code : String → ℕ
last_code String.[] = 0
last_code (String.◌∷◌ c String.[]) = code c
last_code (String.◌∷◌ c (String.◌∷◌ d s)) = last_code (String.◌∷◌ d s)

without_last : String → String
without_last String.[] = String.[]
without_last (String.◌∷◌ c String.[]) = String.[]
without_last (String.◌∷◌ c (String.◌∷◌ d s)) = String.◌∷◌ c (without_last (String.◌∷◌ d s))

unit_size : ℕ → ℕ
unit_size c =
    if c == b'K' || c == b'k'
    then 1_024
    else if c == b'M' || c == b'm'
    then 1_048_576
    else if c == b'G' || c == b'g'
    then 1_073_741_824
    else 1

abbrev pub default_body_limit : ℤ
default_body_limit = pos 10_485_760

sized : ℕ → Option ℤ → ℤ
sized multiplier none = default_body_limit
sized multiplier (some size) = wrap_64 (size *ℤ pos multiplier)

-- `parse_int` is strconv.ParseInt with base 10 and 64 bits.
pub parse_body_limit : (parse_int : String → Option ℤ) → String → ℤ
parse_body_limit parse_int limit =
    let multiplier : ℕ = unit_size (last_code limit) in
    if str_eq limit ""
    then default_body_limit
    else sized multiplier (parse_int (if multiplier == 1 then limit else without_last limit))

abbrev body_fields : (type_name : Stored → String) → Option Stored → Fields
body_fields type_name none = ("has_body", flag_field false) ∷ []
body_fields type_name (some req) =
    ("has_body", flag_field true) ∷ ("body_type", text_field (type_name req)) ∷ []

-- `type_name` is the verb %T of package fmt.
pub safe_log_fields_extractor : (type_name : Stored → String) → LogFieldExtractor
safe_log_fields_extractor type_name ctx = body_fields type_name (ctx.values "body")

pub request_id_skipper : Bool → Context → Bool
request_id_skipper skip ctx = skip

-- `join_host_port` is net.JoinHostPort of the host and the port's digits.
pub new :
    (join_host_port : String → ℤ → String) (parse_int : String → Option ℤ)
    (type_name : Stored → String)
    → Config
    → Server
new join_host_port parse_int type_name cfg = record {
  address = join_host_port cfg.host cfg.port;
  grace_period = cfg.grace_period;
  read_timeout = cfg.read_timeout;
  write_timeout = cfg.write_timeout;
  pre =
      request_logger (safe_log_fields_extractor type_name ∷ [])
      ∷ body_limit (parse_body_limit parse_int cfg.body_limit)
      ∷ [];
  used = if cfg.enable_cors then cors cfg.allow_origins ∷ [] else [];
  http_error_handler = error_handler true [];
  started = false;
}

-- The goroutine that listens only logs its error.
pub start : {W : Type 0} (listen : String → W → W) → Server × W → Server × W
start listen (s, w) = (record s { started = true }, listen s.address w)

stopped : {W : Type 0} → Option GoError × W → Option GoError × W
stopped (none, w) = (none, w)
stopped (some e, w) = (some (wrap "failed to stop HTTP server" e), w)

pub stop : {W : Type 0} (shutdown : ℤ → W → Option GoError × W) → Server → W → Option GoError × W
stop shutdown s w =
    if s.started
    then stopped (shutdown s.grace_period w)
    else (some (sentinel "HTTP server is not running"), w)
