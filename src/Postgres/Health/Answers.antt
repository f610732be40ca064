-- ===== src/Postgres/Health/Answers.antt =====
-- postgres/health.go: what the answer of a health check depends on.
use gframework.Base.{
  String, ◌≡◌, refl, ◌∙◌, Bool, true, false, Option, none, some, List, [], ◌∷◌, ℤ, pos,
}
use gframework.Errors.{GoError}
use gframework.Postgres.Health.{
  HealthCheckOptions, HealthCheckOption, with_health_check_timeout, with_require_active_conns,
  with_min_idle_conns, with_custom_health_check_sql, apply_options, default_options, Env, run_query,
  after_ping, health_check,
}

-- The options of the package.
pub data Setting : Type 0 where
  timeout : ℤ → Setting
  require_active_conns : Setting
  min_idle_conns : ℤ → Setting
  custom_sql : String → Setting

abbrev pub option_of : Setting → HealthCheckOption
option_of (timeout t) = with_health_check_timeout t
option_of require_active_conns = with_require_active_conns
option_of (min_idle_conns n) = with_min_idle_conns n
option_of (custom_sql sql) = with_custom_health_check_sql sql

abbrev pub options_of : List Setting → List HealthCheckOption
options_of [] = []
options_of (s ∷ ss) = option_of s ∷ options_of ss

-- Without the settings about connections.
abbrev pub without_conns : List Setting → List Setting
without_conns [] = []
without_conns (timeout t ∷ ss) = timeout t ∷ without_conns ss
without_conns (require_active_conns ∷ ss) = without_conns ss
without_conns (min_idle_conns n ∷ ss) = without_conns ss
without_conns (custom_sql sql ∷ ss) = custom_sql sql ∷ without_conns ss

record Same (a b : HealthCheckOptions) : Type 0 where
  same_timeout : a.timeout ≡ b.timeout
  same_check : a.check_query_execution ≡ b.check_query_execution
  same_sql : a.custom_health_check_sql ≡ b.custom_health_check_sql

apply_options-Same :
    (ss : List Setting) (a b : HealthCheckOptions)
    → Same a b
    → Same (apply_options (options_of ss) a) (apply_options (options_of (without_conns ss)) b)
unfolding with_health_check_timeout with_require_active_conns with_min_idle_conns
    with_custom_health_check_sql
apply_options-Same [] a b h = h
apply_options-Same (timeout t ∷ ss) a b h =
    apply_options-Same ss _ _
      (record { same_timeout = refl; same_check = h.same_check; same_sql = h.same_sql })
apply_options-Same (require_active_conns ∷ ss) a b h =
    apply_options-Same ss _ _
      (record { same_timeout = h.same_timeout; same_check = h.same_check; same_sql = h.same_sql })
apply_options-Same (min_idle_conns n ∷ ss) a b h =
    apply_options-Same ss _ _
      (record { same_timeout = h.same_timeout; same_check = h.same_check; same_sql = h.same_sql })
apply_options-Same (custom_sql sql ∷ ss) a b h =
    apply_options-Same ss _ _
      (record { same_timeout = h.same_timeout; same_check = refl; same_sql = refl })

module _ {W : Type 0} (env : Env W) (w : W) where
  Same-answer :
      (a b : HealthCheckOptions)
      → Same a b
      → (p : Option GoError × W) → after_ping env a p ≡ after_ping env b p
  unfolding after_ping run_query
  Same-answer a b h (some e, w') = refl
  Same-answer a b h (none, w') = λ i.
      run_query env
        (record {
          timeout = h.same_timeout i;
          require_active_conns = false;
          min_idle_conns = pos 0;
          check_query_execution = h.same_check i;
          custom_health_check_sql = h.same_sql i;
        })
        w'

  after_ping-Same :
      (a b : HealthCheckOptions)
      → Same a b
      → after_ping env a (env.ping a.timeout w) ≡ after_ping env b (env.ping b.timeout w)
  after_ping-Same a b h =
      (λ i. after_ping env a (env.ping (h.same_timeout i) w))
      ∙ Same-answer a b h (env.ping b.timeout w)

  -- The settings about connections have no effect: a health check answers the same without
  -- `WithRequireActiveConns` and `WithMinIdleConns`, whatever the state of the pool.
  pub health_check-without_conns :
      (pool : Bool) (ss : List Setting)
      → health_check env pool (options_of ss) w
        ≡ health_check env pool (options_of (without_conns ss)) w
  unfolding health_check
  health_check-without_conns false ss = refl
  health_check-without_conns true ss = after_ping-Same _ _ (
      apply_options-Same ss default_options default_options
        (record { same_timeout = refl; same_check = refl; same_sql = refl }))
