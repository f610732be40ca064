-- ===== src/Middleware/RequestLogger/Tests.antt =====
-- Runs of middleware/request_logger.go, and a concrete use of what is proved of it.
use gframework.Base.{
  ◌≡◌, refl, true, none, some, List, [], ◌∷◌, pos, str_eq, if◌then◌else◌, lookup, insert,
}
use gframework.Errors.{sentinel, ok}
use gframework.Middleware.Claims.{Context, text}
use gframework.Middleware.RequestLogger.{
  text_field, flag_field, LogFieldExtractor, Request, Served, request_logger, extract_log_fields,
  add_extra_log_fields, line, after_response, after_next,
}
use gframework.Middleware.RequestLogger.Fields.{LoggedAs, request_logger-LoggedAs}

abbrev get_users : Request
get_users = record {
  real_ip = "10.0.0.7";
  host = "api";
  method = "GET";
  url = "/users";
  request_uri = "/users";
  user_agent = "curl";
}

abbrev ctx : Context
ctx = record { values = λ key. if str_eq key "requestID" then some (text "r-1") else none }

abbrev extractors : List LogFieldExtractor
extractors =
    (λ c. ("source", text_field "shop") ∷ ("has_body", flag_field true) ∷ [])
    ∷ (λ c. ("source", text_field "till") ∷ [])
    ∷ []

abbrev serve : Context → Served
serve c = record {
  failure = none;
  context = c;
  response = ok (record { status = pos 200; size = pos 12 });
}

abbrev fail : Context → Served
fail c = record (serve c) { failure = some (sentinel "boom") }

runs :
    (request_logger extractors get_users "1ms" fail ctx ≡ (some (sentinel "boom"), []))
    × (let fields =
          line extractors get_users "1ms" ctx (record { status = pos 200; size = pos 12 }) in
        (lookup "source" fields ≡ some (text_field "till"))
        × (lookup "request_id" fields ≡ some (text_field "r-1"))
        × (lookup "request" fields ≡ some (text_field "GET /users"))
        × (lookup "has_body" fields ≡ some (flag_field true)))
unfolding request_logger extract_log_fields add_extra_log_fields line after_response after_next
    lookup insert
runs = (refl, (refl, refl, refl, refl))

request_logger-LoggedAs_example :
    LoggedAs extractors get_users "1ms"
      (serve ctx)
      (request_logger extractors get_users "1ms" serve ctx)
request_logger-LoggedAs_example = request_logger-LoggedAs extractors get_users "1ms" serve ctx
