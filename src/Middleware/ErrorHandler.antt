-- ===== src/Middleware/ErrorHandler.antt =====
-- middleware/error_handler.go: turning an error into a response.
pub mod Responses
mod Tests
use gframework.Base.{
  ℕ, String, ◌≡◌, Bool, true, false, ◌&&◌, Option, none, some, List, [], ◌∷◌, ◌++◌, leb,
  if◌then◌else◌,
}
use gframework.Errors.{GoError}

-- *echo.HTTPError: its code and message, and the text of the error that it wraps, if any.
pub record HttpError : Type 0 where
  pub code : ℕ
  pub message : String
  pub internal : Option String

-- An error in whose chain `errors.As` finds an *echo.HTTPError, or any other.
pub data HandlerError : Type 0 where
  http : HttpError → HandlerError
  plain : GoError → HandlerError

pub data Body : Type 0 where
  error_body : String → Option String → Body
  custom_body : String → Body

pub data Level : Type 0 where
  info warn error : Level

-- What the handler does, in order.
pub data Effect : Type 0 where
  logged : Level → Effect
  wrote : ℕ → Body → Effect
  called_next : Effect

-- `custom` is `CustomErrorResponse`; `logger` and `next` say whether one was given.
pub record ErrorHandlerConfig : Type 0 where
  pub logger : Bool
  pub log_errors : Bool
  pub include_internal_errors : Bool
  pub custom : Option (HttpError → String)

pub default_config : ErrorHandlerConfig
default_config = record {
  logger = false;
  log_errors = false;
  include_internal_errors = false;
  custom = none;
}

-- `config` is variadic: the first, if it is not nil, counts.
unfoldable pub get_error_handler_config : List (Option ErrorHandlerConfig) → ErrorHandlerConfig
unfolding default_config
get_error_handler_config [] = default_config
get_error_handler_config (none ∷ cs) = default_config
get_error_handler_config (some c ∷ cs) = c

pub level_of : ℕ → Level
level_of code = if leb 500 code then error else if leb 400 code then warn else info

abbrev log_at : ErrorHandlerConfig → Level → List Effect
log_at cfg level = if cfg.log_errors && cfg.logger then logged level ∷ [] else []

pub build_error_response : ErrorHandlerConfig → HttpError → Body
build_error_response cfg e =
    error_body e.message (if cfg.include_internal_errors then e.internal else none)

body_of : ErrorHandlerConfig → HttpError → Body
unfolding build_error_response
body_of cfg e = elim cfg.custom [ none ↦ build_error_response cfg e | some f ↦ custom_body (f e) ]

handle_http_error : ErrorHandlerConfig → HttpError → List Effect
unfolding body_of level_of
handle_http_error cfg e = log_at cfg (level_of e.code) ++ wrote e.code (body_of cfg e) ∷ []

abbrev call_next : Bool → List Effect
call_next true = called_next ∷ []
call_next false = []

unfoldable pub handle : ErrorHandlerConfig → Bool → HandlerError → List Effect
unfolding handle_http_error
handle cfg next (http e) = handle_http_error cfg e
handle cfg next (plain e) = log_at cfg error ++ call_next next

-- `committed` says that the response was sent already.
pub error_handler :
    (next : Bool) (config : List (Option ErrorHandlerConfig)) (committed : Bool)
    → HandlerError
    → List Effect
unfolding handle get_error_handler_config
error_handler next config committed e =
    if committed then [] else handle (get_error_handler_config config) next e
