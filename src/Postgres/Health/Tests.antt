-- ===== src/Postgres/Health/Tests.antt =====
-- Runs of postgres/health.go, and a concrete use of what is proved of it.
use gframework.Base.{
  String, ◌≡◌, refl, true, false, none, some, List, [], ◌∷◌, str_eq, if◌then◌else◌, pos,
}
use gframework.Errors.{sentinel, wrap}
use gframework.Postgres.Health.{
  with_health_check_timeout, with_require_active_conns, with_min_idle_conns,
  with_custom_health_check_sql, Env, run_query, after_ping, health_check, is_healthy,
}
use gframework.Postgres.Health.Answers.{
  Setting, require_active_conns, min_idle_conns, custom_sql, options_of, health_check-without_conns,
}

-- A pool without any connection; the world is the list of queries.
abbrev env : Env (List String)
env = record {
  ping = λ timeout w. (none, w);
  query_row = λ timeout sql w.
      (if str_eq sql "SELECT 1" then none else some (sentinel "syntax error"), sql ∷ w);
}

abbrev strict : List Setting
strict = require_active_conns ∷ min_idle_conns (pos 5) ∷ custom_sql "SELECT 1" ∷ []

runs :
    (health_check env true (options_of strict) [] ≡ (none, "SELECT 1" ∷ []))
    × (health_check env true (options_of (custom_sql "" ∷ [])) [] ≡ (none, "SELECT 1" ∷ []))
    × (health_check env true (options_of (custom_sql "SELEC" ∷ [])) [] ≡ (
      some (wrap "postgres health check query failed" (sentinel "syntax error")),
      "SELEC" ∷ [],
    ))
    × (is_healthy env false [] ≡ (false, []))
unfolding health_check is_healthy run_query after_ping with_health_check_timeout
    with_require_active_conns with_min_idle_conns with_custom_health_check_sql
runs = (refl, refl, refl, refl)

health_check-without_conns_example :
    health_check env true (options_of strict) []
    ≡ health_check env true (options_of (custom_sql "SELECT 1" ∷ [])) []
health_check-without_conns_example = health_check-without_conns env [] true strict
