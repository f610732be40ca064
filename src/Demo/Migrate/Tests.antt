-- ===== src/Demo/Migrate/Tests.antt =====
-- Runs of examples/demo-api/cmd/migrate/main.go, and a concrete use of what is proved of it.
use gframework.Base.{
  String, ◌≡◌, refl, false, none, [], ◌∷◌, ℤ, pos, negsuc, ◌-ℤ◌, wrap_64, str_eq, if◌then◌else◌,
}
use gframework.Errors.{sentinel, Result, ok, err}
use gframework.Postgres.Migration.{Action, up, down, steps, force, Env, Logged, migrate_steps}
use gframework.Postgres.Migration.Protocol.{At, idle}
use gframework.Demo.Config.{Config, env_defaults, postgres_dsn}
use gframework.Demo.Migrate.{main, run_command, after_config, run, handle_down, step_down}
use gframework.Demo.Migrate.Exits.{main-idle}

-- The state is the number of migrations applied.
abbrev apply : Action → ℤ → ℤ
apply up n = pos 9
apply down n = pos 0
apply (steps k) n = k
apply (force v) n = v

abbrev env : Env ℤ
env = record {
  open_db = λ uri n. (none, n);
  ping = λ timeout n. (none, n);
  close_db = λ n. (none, n);
  with_instance = λ n. (none, n);
  new_migrator = λ source n. (none, n);
  act = λ action n. (none, apply action n);
  ask_version = λ n. ((record { version = 1; dirty = false }, none), n);
  close_both = λ n. ((none, none), n);
}

abbrev atoi : String → Result ℤ
atoi s =
    if str_eq s "2"
    then ok (pos 2)
    else if str_eq s "-2"
    then ok (negsuc 1)
    else err (sentinel "strconv.ErrSyntax")

abbrev config : Result Config
config = ok (record env_defaults {
  postgres_host = "db";
  postgres_port = pos 5_432;
  postgres_user = "u";
  postgres_password = "p";
  postgres_database = "d";
  postgres_ssl_mode = "disable";
  migration_enabled = false;
  migration_source = "file://sql";
})

abbrev digits : ℤ → String
digits n = "5432"

abbrev fresh : Logged ℤ
fresh = record { world = pos 5; log = [] }

abbrev dsn : String
dsn = "host=db port=5432 user=u password=p dbname=d sslmode=disable"

-- `down -2` steps up.
runs :
    ((main env atoi digits config ("down" ∷ "2" ∷ []) fresh).1
      ≡ (migrate_steps env dsn "file://sql" (negsuc 1) fresh).1)
    × ((main env atoi digits config ("down" ∷ "-2" ∷ []) fresh).1
        ≡ (migrate_steps env dsn "file://sql" (pos 2) fresh).1)
    × ((main env atoi digits config ("down" ∷ "all" ∷ []) fresh).0 ≡ 1)
    × ((main env atoi digits config ("down" ∷ []) fresh).0 ≡ 1)
    × ((main env atoi digits config [] fresh).0 ≡ 1)
unfolding main after_config run_command run handle_down step_down postgres_dsn wrap_64 ◌-ℤ◌
runs = (refl, refl, refl, refl, refl)

main-idle_example : At idle (main env atoi digits config ("down" ∷ "2" ∷ []) fresh).1.log
main-idle_example = main-idle env atoi digits config ("down" ∷ "2" ∷ []) fresh (refl, refl)
