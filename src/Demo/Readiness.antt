-- ===== src/Demo/Readiness.antt =====
-- examples/demo-api/internal/service/readiness.go and health.go: whether the service is up, and whether
-- what it needs is. Logging is left out.
pub mod Services
mod Tests
use gframework.Base.{ℕ, String, Bool, true, false, Option, none, some, List, [], ◌∷◌, insert}
use gframework.Errors.{GoError}
use gframework.Httpserver.Handling.{
  HttpError, HandlerResponse, new_response, End, responded, failed,
}
use gframework.Postgres.Health
use gframework.Valkey

pub record HealthCheckResponse : Type 0 where
  pub status : String

pub health_execute : {W : Type 0} → W → End HealthCheckResponse × W
health_execute w = (responded (some (new_response (record { status = "healthy" }))), w)

pub record Info : Type 0 where
  pub status : String
  pub error : String

pub record ReadinessCheckResponse : Type 0 where
  pub status : String
  pub services : List (String × Info)

abbrev pub service_not_ready : HttpError
service_not_ready = record { code = 503; message = "Service not ready" }

-- A delegate returns a response and an error, and the error is looked at first.
abbrev pub end_of : {D : Type 0} → Option (HandlerResponse D) × Option HttpError → End D
end_of (r, some e) = failed e
end_of (r, none) = responded r

-- The two clients with whether each is there, and the method `Error` of an error.
module _ {W : Type 0} (postgres : Health.Env W) (pool : Bool) {C P : Type 0}
    (valkey : Valkey.Env W C P) (client : Bool) (text_of : GoError → String) where
  info : Option GoError → Info
  info none = record { status = "ready"; error = "" }
  info (some e) = record { status = "not_ready"; error = text_of e }

  abbrev pub still_ready : Bool → Option GoError → Bool
  still_ready all_ready none = all_ready
  still_ready all_ready (some e) = false

  response :
      List (String × Info)
      → Bool
      → Option (HandlerResponse ReadinessCheckResponse) × Option HttpError
  response services true = (
    some (record { payload = record { status = "ready"; services = services }; pagination = none }),
    none,
  )
  response services false = (
    some (record {
      payload = record { status = "not_ready"; services = services };
      pagination = none;
    }),
    some service_not_ready,
  )

  pub readiness_execute :
      W → (Option (HandlerResponse ReadinessCheckResponse) × Option HttpError) × W
  readiness_execute w =
      let (pg, w1) = Health.health_check postgres pool [] w in
      let (vk, w2) = Valkey.health_check valkey client w1 in
      (
        response (insert "valkey" (info vk) (insert "postgres" (info pg) []))
            (still_ready (still_ready true pg) vk),
        w2,
      )

  pub readiness_end : W → End ReadinessCheckResponse × W
  readiness_end w = let (r, w') = readiness_execute w in (end_of r, w')
