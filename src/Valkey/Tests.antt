-- ===== src/Valkey/Tests.antt =====
-- Runs of valkey/valkey.go, and concrete uses of what is proved of it.
use gframework.Base.{ℕ, ◌≡◌, refl, true, false, none, some, pos}
use gframework.Errors.{sentinel, wrap, err}
use gframework.Valkey.{
  Config, Env, new, start, stop, health_check, validated, validate, with_defaults, default_to,
  built, build_valkey_options, add_tls, build_tls_config, with_certificate, client_certificate,
  with_roots, root_cas, load_ca, wrapped, checked,
}
use gframework.Valkey.Verdict.{Verdict}

-- A server whose files do not exist; the state is the number of connections.
abbrev env : Env ℕ Unit Unit
env = record {
  load_key_pair = λ c k. err (sentinel "ENOENT");
  read_file = λ f. err (sentinel "ENOENT");
  parse_pem = λ p. none;
  join_host_port = λ h p. h;
  ping = λ n. (none, n);
  close = λ n. (none, 0);
  total_conns = λ n. n;
}

abbrev local : Config
local = record {
  host = "localhost";
  port = pos 6379;
  password = "";
  db = pos 0;
  dial_timeout = pos 0;
  max_idle_conns = pos 0;
  min_idle_conns = pos 0;
  ping_timeout = pos 0;
  pool_size = pos 0;
  read_timeout = pos 0;
  write_timeout = pos 0;
  max_retries = pos 0;
  min_retry_backoff = pos 0;
  max_retry_backoff = pos 0;
  tls_enabled = true;
  tls_skip_verify = false;
  tls_cert_file = "";
  tls_key_file = "";
  tls_ca_file = "ca.pem";
}

-- The file of the authority is missing; no client; no connection left.
runs :
    ((new env (some local)).0
      ≡ err (
          wrap "failed to build Valkey options" (
            wrap "failed to build TLS config"
              (wrap "failed to read CA certificate" (sentinel "ENOENT")))))
    × (start env 3 ≡ (none, 3))
    × (stop env false 3 ≡ (some (sentinel "ErrValkeyPoolNil"), 3))
    × (health_check env true 0 ≡ (some (sentinel "ErrHealthCheckNoActiveConns"), 0))
unfolding new start stop health_check validated validate with_defaults default_to built
    build_valkey_options add_tls build_tls_config with_certificate client_certificate with_roots
    root_cas load_ca wrapped checked
runs = (refl, refl, refl, refl)
