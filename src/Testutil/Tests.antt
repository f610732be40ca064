-- ===== src/Testutil/Tests.antt =====
-- Runs of testutil/helpers.go and postgres.go.
use gframework.Base.{
  ℕ, suc, true, false, insert, Option, String, ◌≡◌, refl, none, some, List, [], ◌∷◌, ℤ, pos, negsuc,
  ltb, ◌+ℤ◌, ◌-ℤ◌, wrap_64, leb_ℤ, str_eq, if◌then◌else◌,
}
use gframework.Errors.{sentinel, wrap, ok, err}
use gframework.Testutil.{
  Value, given, panicked, random_int, passed, failed, Poll, eventually, Files, run_migrations,
  run_found, run_files, exec_read, setup_echo_context, setup_echo_context_with_auth, request_path,
  set_headers, cleanup_database, truncate_listed, truncate_all,
}

-- The clock is the state; the condition holds from 3 on.
abbrev poll : Poll ℕ
poll = record {
  before_deadline = λ t. (ltb t 5, t);
  condition = λ t. (ltb 2 t, t);
  pause = λ t. suc t;
}

abbrev slow : Poll ℕ
slow = record poll { pause = λ t. suc (suc (suc (suc (suc t)))) }

abbrev draw : ℤ → Value (Option ℤ)
draw limit = if leb_ℤ limit (pos 0) then panicked else given (some (limit -ℤ pos 1))

-- The state is what was executed.
abbrev files : Files (List String)
files = record {
  glob = λ pattern. if str_eq pattern "db/*.up.sql" then ok ("1" ∷ "2" ∷ []) else ok [];
  read_file = λ file. if str_eq file "2" then err (sentinel "EACCES") else ok "CREATE";
  exec = λ sql done. (none, sql ∷ done);
  join_path = λ path name. if str_eq path "db" then "db/*.up.sql" else name;
}

-- The whole range of int64 makes a limit of 0.
runs :
    ((eventually poll "no" 9 0).0 ≡ some passed)
    × ((eventually slow "no" 9 1).0 ≡ some (failed "no"))
    × (random_int draw (pos 3) (pos 7) ≡ given (pos 7))
    × (random_int draw (pos 3) (pos 3) ≡ given (pos 3))
    × (random_int draw (negsuc 9_223_372_036_854_775_807) (pos 9_223_372_036_854_775_807)
        ≡ panicked)
    × (run_migrations files "db" [] ≡ (some (sentinel "EACCES"), "CREATE" ∷ []))
    × (run_migrations files "sql" [] ≡ (some (wrap "sql" (sentinel "errNoMigrationFile")), []))
unfolding eventually random_int run_migrations run_found run_files exec_read ◌+ℤ◌ ◌-ℤ◌ wrap_64
runs = (refl, refl, refl, refl, refl, refl, refl)

abbrev canonical : String → String
canonical name = if str_eq name "content-type" then "Content-Type" else name

-- A header that is given counts more than the default.
requests :
    (setup_echo_context
        (λ q. "page=2")
        canonical
        "r-1"
        (record {
          path = "/users";
          headers = ("content-type", "text/csv") ∷ [];
          query_params = ("page", "2") ∷ [];
          content_type = "";
          skip_request_id = false;
        })
      ≡ record {
        path = "/users?page=2";
        headers = ("X-Request-ID", "r-1") ∷ ("Content-Type", "text/csv") ∷ [];
      })
    × ((setup_echo_context_with_auth
          (λ q. "")
          canonical
          "r-1"
          "Bearer t"
          (record {
            path = "/users";
            headers = [];
            query_params = [];
            content_type = "";
            skip_request_id = true;
          })).headers
        ≡ ("Content-Type", "application/json") ∷ ("Authorization", "Bearer t") ∷ [])
    × (cleanup_database files (λ w. (ok ("users" ∷ "orders" ∷ []), w)) []
        ≡ (passed, "TRUNCATE TABLE orders CASCADE" ∷ "TRUNCATE TABLE users CASCADE" ∷ []))
unfolding setup_echo_context setup_echo_context_with_auth request_path set_headers insert
    cleanup_database truncate_listed truncate_all
requests = (refl, refl, refl)
