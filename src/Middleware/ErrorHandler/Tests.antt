-- ===== src/Middleware/ErrorHandler/Tests.antt =====
-- Runs of middleware/error_handler.go, and a concrete use of what is proved of it.
use gframework.Base.{◌≡◌, refl, true, false, none, some, [], ◌∷◌}
use gframework.Errors.{sentinel}
use gframework.Middleware.ErrorHandler.{
  HttpError, http, plain, error_body, error, logged, wrote, called_next, ErrorHandlerConfig,
  error_handler,
}

abbrev verbose : ErrorHandlerConfig
verbose = record {
  logger = true;
  log_errors = true;
  include_internal_errors = false;
  custom = none;
}

abbrev failure : HttpError
failure = record { code = 502; message = "bad gateway"; internal = some "dial tcp: refused" }

runs :
    (error_handler true (some verbose ∷ []) false (http failure)
      ≡ logged error ∷ wrote 502 (error_body "bad gateway" none) ∷ [])
    × (error_handler true [] false (plain (sentinel "boom")) ≡ called_next ∷ [])
    × (error_handler true (some verbose ∷ []) true (plain (sentinel "boom")) ≡ [])
unfolding error_handler
runs = (refl, refl, refl)
