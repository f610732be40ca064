-- ===== src/Httpserver/Handling.antt =====
-- httpserver/error.go, wrapper.go, call.go and response.go: from a request to its answer.
-- An error that a response wraps is only for the log, and is left out.
pub mod Endpoint
mod Tests
use Prim.Native.String
use gframework.Base.{
  ℕ, String, Bool, true, false, ◌==◌, Option, none, some, List, [], ◌∷◌, if◌then◌else◌,
}
use gframework.Errors.{GoError, foreign, Result, ok, err}
use gframework.Validator.{ValidationError, Invalid, fields, other, error_text}
use gframework.Httpserver.Pagination.{Pagination}

-- echo.HTTPError
pub record HttpError : Type 0 where
  pub code : ℕ
  pub message : String

pub record HandlerResponse (D : Type 0) : Type 0 where
  pub payload : D
  pub pagination : Option Pagination

pub record ApiResponse (D : Type 0) : Type 0 where
  pub request_id : String
  pub payload : D
  pub pagination : Option Pagination

unfoldable pub new_response : {D : Type 0} → D → HandlerResponse D
new_response d = record { payload = d; pagination = none }

unfoldable pub new_paginated_response : {D : Type 0} → D → Option Pagination → HandlerResponse D
new_paginated_response d pagination = record { payload = d; pagination = pagination }

-- `status_text` is http.StatusText and `text_of` the method `Error` of an error.
module _ (status_text : ℕ → String) (text_of : GoError → String) where
  abbrev cause_text : ℕ → Option GoError → String
  cause_text code none = status_text code
  cause_text code (some e) = text_of e

  unfoldable pub http_error : ℕ → Option GoError → List String → HttpError
  http_error code e [] = record { code = code; message = cause_text code e }
  http_error code e (detail ∷ details) = record { code = code; message = detail }

  pub bad_request_error : Option GoError → List String → HttpError
  bad_request_error e details = http_error 400 e details

  unfoldable pub not_found_error : Option GoError → List String → HttpError
  not_found_error e details = http_error 404 e details

  pub unauthorized_error : Option GoError → List String → HttpError
  unauthorized_error e details = http_error 401 e details

  pub forbidden_error : Option GoError → List String → HttpError
  forbidden_error e details = http_error 403 e details

  pub conflict_error : Option GoError → List String → HttpError
  conflict_error e details = http_error 409 e details

  unfoldable pub internal_error : Option GoError → List String → HttpError
  internal_error e details = http_error 500 e details

  pub service_unavailable_error : Option GoError → List String → HttpError
  service_unavailable_error e details = http_error 503 e details

-- How a handler ends; its response may be nil, also without an error.
pub data End (D : Type 0) : Type 0 where
  responded : Option (HandlerResponse D) → End D
  failed : HttpError → End D
  panicked : String → End D

pub data Reply (A : Type 0) : Type 0 where
  value : A → Reply A
  refused : HttpError → Reply A

-- What goes back to Echo: JSON with a status, or an error.
pub data Answer (A : Type 0) : Type 0 where
  json : ℕ → A → Answer A
  error : HttpError → Answer A

-- The Echo context on a state `W`; `status` is the status of the response, if it can be unwrapped.
pub record Echo (W T : Type 0) : Type 0 where
  pub bind : W → Result T × W
  pub validate : T → Option (Invalid ValidationError)
  pub is_done : W → Bool
  pub request_id : W → String
  pub status : W → Option ℕ

-- The values of the context that the package sets.
pub record Exchange (W T : Type 0) : Type 0 where
  pub world : W
  pub handler : Option String
  pub body : Option T

abbrev pub validation_message : Invalid ValidationError → String
validation_message (fields errs) = error_text errs
validation_message (other e) = "Validation failed"

abbrev invalid_cause : Invalid ValidationError → GoError
invalid_cause (fields errs) = foreign (error_text errs)
invalid_cause (other e) = e

abbrev internal_server_error : HttpError
internal_server_error = record { code = 500; message = "internal server error" }

abbrev pub status_or_ok : Option ℕ → ℕ
status_or_ok none = 200
status_or_ok (some code) = if code == 0 then 200 else code

module _ {W T D : Type 0} (echo : Echo W T) where
  -- Without a response, reading its fields panics, and that is recovered.
  finish : String → End D → Reply (ApiResponse D)
  finish request_id (responded none) = refused internal_server_error
  finish request_id (responded (some r)) =
      value (record { request_id = request_id; payload = r.payload; pagination = r.pagination })
  finish request_id (failed e) = refused e
  finish request_id (panicked v) = refused internal_server_error

  after_delegate : End D × W → Exchange W T → Reply (ApiResponse D) × Exchange W T
  after_delegate (end, w) s = (finish (echo.request_id w) end, record s { world = w })

  pub execute_standardized :
      (handler_name : String) (delegate : T → W → End D × W) (request : T)
      → Exchange W T
      → Reply (ApiResponse D) × Exchange W T
  execute_standardized handler_name delegate request s =
      let named = record s { handler = some handler_name } in
      if echo.is_done s.world
      then (refused (record { code = 499; message = "client closed request" }), named)
      else after_delegate (delegate request s.world) named

module _ {W T A : Type 0} (status_text : ℕ → String) (text_of : GoError → String) (echo : Echo W T)
    (wrapped : T → Exchange W T → Reply A × Exchange W T) where
  after_wrapped : Reply A × Exchange W T → Answer A × Exchange W T
  after_wrapped (refused e, s) = (error e, s)
  after_wrapped (value a, s) = (json (status_or_ok (echo.status s.world)) a, s)

  -- The second half of `bindAndValidate`, and what `Wrapper` does with its result.
  after_validate : T → Option (Invalid ValidationError) → Exchange W T → Answer A × Exchange W T
  after_validate req (some v) s = (
    error (
        bad_request_error status_text text_of (some (invalid_cause v)) (validation_message v ∷ [])),
    s,
  )
  after_validate req none s = after_wrapped (wrapped req (record s { body = some req }))

  after_bind : Result T × W → Exchange W T → Answer A × Exchange W T
  after_bind (err e, w) s = (
    error (bad_request_error status_text text_of (some e) ("Invalid request body" ∷ [])),
    record s { world = w },
  )
  after_bind (ok req, w) s = after_validate req (echo.validate req) (record s { world = w })

  pub wrapper : Exchange W T → Answer A × Exchange W T
  wrapper s = after_bind (echo.bind s.world) s
