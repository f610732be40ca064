-- ===== src/Middleware/RequestId/Tests.antt =====
-- Runs of middleware/request_id.go, and concrete uses of what is proved of it.
use gframework.Base.{String, ◌≡◌, ◌≢◌, refl, ◌⊎◌, true, false, none, some, str_eq, if◌then◌else◌}
use gframework.Errors.{sentinel}
use gframework.Middleware.RequestId.{
  RequestIdConfig, Exchange, invalid_header, passed, trim_space, request_id_with_config,
}
use gframework.Middleware.RequestId.Validity.{request_id-IsIdentifier}

abbrev cfg : RequestIdConfig
cfg = record {
  skipper = λ path. str_eq path "/health";
  auto_generate = false;
  validator = λ rid. if str_eq rid "7f" then none else some (sentinel "invalid UUID");
}

abbrev valid : String
valid = "7f"

abbrev sent : String → Exchange
sent header = record {
  path = "/users";
  request_header = header;
  response_header = none;
  request_id = none;
}

abbrev answered : Exchange
answered = record {
  path = "/users";
  request_header = " 7f ";
  response_header = some "7f";
  request_id = some "7f";
}

runs :
    (request_id_with_config cfg "9a" (λ e. e) (sent " 7f ") ≡ passed answered)
    × (request_id_with_config cfg "9a" (λ e. e) (sent "8") ≡ invalid_header)
    × (request_id_with_config
          (record cfg { auto_generate = true })
          "9a"
          (λ e. e.request_id)
          (sent " ")
        ≡ passed (some "9a"))
unfolding request_id_with_config trim_space
runs = (refl, refl, refl)

request_id-IsIdentifier_example :
    (some valid ≡ some valid)
    × (((some valid ≡ some (trim_space " 7f "))
          × (trim_space " 7f " ≢ "")
          × (cfg.validator (trim_space " 7f ") ≡ none))
        ⊎ ((some valid ≡ some "9a") × (trim_space " 7f " ≡ "") × (false ≡ true)))
request_id-IsIdentifier_example =
    request_id-IsIdentifier cfg "9a" (sent " 7f ") answered refl (runs.0)
