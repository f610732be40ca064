-- ===== src/Demo/Readiness/Services.antt =====
-- examples/demo-api/internal/service/readiness.go: what the answer depends on.
use gframework.Base.{String, ◌≡◌, refl, ◌↔◌, Bool, true, Option, none, some, [], ◌∷◌, insert}
use gframework.Errors.{GoError}
use gframework.Httpserver.Handling.{HandlerResponse, End, responded, failed}
use gframework.Postgres.Health
use gframework.Valkey
use gframework.Demo.Readiness.{
  ReadinessCheckResponse, Info, end_of, info, still_ready, response, readiness_execute,
  readiness_end, service_not_ready,
}

abbrev up : Info
up = record { status = "ready"; error = "" }

-- The only response that reaches a client.
abbrev pub all_ready : HandlerResponse ReadinessCheckResponse
all_ready = record {
  payload = record { status = "ready"; services = ("postgres", up) ∷ ("valkey", up) ∷ [] };
  pagination = none;
}

module _ {W : Type 0} (postgres : Health.Env W) (pool : Bool) {C P : Type 0}
    (valkey : Valkey.Env W C P) (client : Bool) (text_of : GoError → String) where
  abbrev end_for : Option GoError → Option GoError → End ReadinessCheckResponse
  end_for pg vk = end_of (
      response postgres pool valkey client text_of
        (insert "valkey" (info postgres pool valkey client text_of vk)
          (insert "postgres" (info postgres pool valkey client text_of pg) []))
        (still_ready postgres pool valkey client text_of
          (still_ready postgres pool valkey client text_of true pg) vk))

  end_for-lem :
      (pg vk : Option GoError)
      → ((end_for pg vk ≡ responded (some all_ready)) ↔ ((pg ≡ none) × (vk ≡ none)))
        × ((end_for pg vk ≡ failed service_not_ready) ↔ (¬ ((pg ≡ none) × (vk ≡ none))))
  unfolding response info insert
  end_for-lem none none =
      (((λ p. (refl, refl)), λ p. refl), ((λ p. absurd (cc p)), λ n. absurd (n (refl, refl))))
  end_for-lem (some e) none =
      (((λ p. absurd (cc p)), λ (a, b). absurd (cc a)), ((λ p (a, b). absurd (cc a)), λ n. refl))
  end_for-lem none (some e) =
      (((λ p. absurd (cc p)), λ (a, b). absurd (cc b)), ((λ p (a, b). absurd (cc b)), λ n. refl))
  end_for-lem (some e) (some d) =
      (((λ p. absurd (cc p)), λ (a, b). absurd (cc b)), ((λ p (a, b). absurd (cc b)), λ n. refl))

  -- Both health checks are made, PostgreSQL's first. The service answers that it is ready, with both
  -- services ready, exactly when both checks pass, and in every other case with the error 503, which
  -- names no service.
  pub readiness_end-ready_iff :
      (w : W)
      → let (pg, w1) = Health.health_check postgres pool [] w in
        let (vk, w2) = Valkey.health_check valkey client w1 in
        let (end, w') = readiness_end postgres pool valkey client text_of w in
        ((end ≡ responded (some all_ready)) ↔ ((pg ≡ none) × (vk ≡ none)))
        × ((end ≡ failed service_not_ready) ↔ (¬ ((pg ≡ none) × (vk ≡ none))))
        × (w' ≡ w2)
  unfolding readiness_end readiness_execute
  readiness_end-ready_iff w =
      let (pg, w1) = Health.health_check postgres pool [] w in
      let (vk, w2) = Valkey.health_check valkey client w1 in
      ((end_for-lem pg vk).0, (end_for-lem pg vk).1, refl)
