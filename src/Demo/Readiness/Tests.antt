-- ===== src/Demo/Readiness/Tests.antt =====
-- Runs of readiness.go and health.go, and a concrete use of what is proved of them.
use gframework.Base.{ℕ, suc, String, ◌≡◌, refl, ◌↔◌, true, false, Option, none, some, [], insert}
use gframework.Errors.{GoError, sentinel, err}
use gframework.Httpserver.Handling.{new_response, responded, failed}
use gframework.Postgres.Health
use gframework.Valkey
use gframework.Demo.Readiness.{
  readiness_end, readiness_execute, health_execute, info, response, service_not_ready,
}
use gframework.Demo.Readiness.Services.{all_ready, readiness_end-ready_iff}

-- The state counts the pings.
abbrev database : Health.Env ℕ
database = record { ping = λ timeout n. (none, suc n); query_row = λ timeout sql n. (none, n) }

abbrev text_of : GoError → String
text_of e = "refused"

abbrev valkey : Option GoError → Valkey.Env ℕ ℕ ℕ
valkey answer = record {
  load_key_pair = λ cert key. err (sentinel "no file");
  read_file = λ file. err (sentinel "no file");
  parse_pem = λ pem. none;
  join_host_port = λ host port. host;
  ping = λ n. (answer, suc n);
  close = λ n. (none, n);
  total_conns = λ n. 1;
}

runs :
    (readiness_end database true (valkey none) true text_of 0 ≡ (responded (some all_ready), 2))
    × (readiness_end database true (valkey (some (sentinel "down"))) true text_of 0
        ≡ (failed service_not_ready, 2))
    × (readiness_end database false (valkey none) true text_of 0 ≡ (failed service_not_ready, 1))
    × (health_execute {W = ℕ} 5
        ≡ (responded (some (new_response (record { status = "healthy" }))), 5))
unfolding readiness_end readiness_execute info response insert health_execute new_response
    Health.health_check Health.after_ping Health.run_query Valkey.health_check Valkey.checked
runs = (refl, refl, refl, refl)

readiness_end-ready_iff_example :
    let (pg, w1) = Health.health_check database true [] 0 in
    let (vk, w2) = Valkey.health_check (valkey none) true w1 in
    let (end, w') = readiness_end database true (valkey none) true text_of 0 in
    ((end ≡ responded (some all_ready)) ↔ ((pg ≡ none) × (vk ≡ none)))
    × ((end ≡ failed service_not_ready) ↔ (¬ ((pg ≡ none) × (vk ≡ none))))
    × (w' ≡ w2)
readiness_end-ready_iff_example = readiness_end-ready_iff database true (valkey none) true text_of 0
