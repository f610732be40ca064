-- ===== src/Httpserver/Server/Tests.antt =====
-- Runs of httpserver/server.go.
use gframework.Base.{
  ℕ, String, ◌≡◌, refl, true, [], ◌∷◌, Option, none, some, ℤ, pos, negsuc, ◌*ℤ◌, wrap_64, str_eq,
  if◌then◌else◌,
}
use gframework.Errors.{sentinel}
use gframework.Middleware.Claims.{Context, Stored, other}
use gframework.Middleware.RequestLogger.{text_field, flag_field}
use gframework.Httpserver.Server.{
  Config, Server, request_logger, body_limit, cors, safe_log_fields_extractor, request_id_skipper,
  default_body_limit, parse_body_limit, new, start, stop, sized, unit_size, last_code, without_last,
  stopped,
}

abbrev parse_int : String → Option ℤ
parse_int text =
    if str_eq text "2"
    then some (pos 2)
    else if str_eq text "8589934592"
    then some (pos 8_589_934_592)
    else none

abbrev config : Config
config = record {
  host = "";
  port = pos 80;
  enable_cors = true;
  allow_origins = "*" ∷ [];
  body_limit = "2M";
  read_timeout = pos 1;
  write_timeout = pos 1;
  grace_period = pos 5;
}

abbrev type_name : Stored → String
type_name v = "*shop.Order"

abbrev server : Server
server = new (λ h p. ":80") parse_int type_name config

abbrev with_body : Context
with_body = record { values = λ key. if str_eq key "body" then some other else none }

-- 8589934592 gigabytes overflow to a negative limit.
runs :
    (server.pre
      ≡ request_logger (safe_log_fields_extractor type_name ∷ []) ∷ body_limit (pos 2_097_152) ∷ [])
    × (server.used ≡ cors ("*" ∷ []) ∷ [])
    × (safe_log_fields_extractor type_name with_body
        ≡ ("has_body", flag_field true) ∷ ("body_type", text_field "*shop.Order") ∷ [])
    × (request_id_skipper true with_body ≡ true)
    × (parse_body_limit parse_int "8589934592G" ≡ negsuc 9_223_372_036_854_775_807)
    × (parse_body_limit parse_int "lots" ≡ default_body_limit)
    × (stop {W = ℕ} (λ grace w. (none, w)) server 0
        ≡ (some (sentinel "HTTP server is not running"), 0))
    × (stop {W = ℕ} (λ grace w. (none, w)) (start {W = ℕ} (λ address w. w) (server, 0)).0 0
        ≡ (none, 0))
unfolding new safe_log_fields_extractor request_id_skipper parse_body_limit stop start ◌*ℤ◌ wrap_64
    sized unit_size last_code without_last stopped
runs = (refl, refl, refl, refl, refl, refl, refl, refl)
