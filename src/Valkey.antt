-- ===== src/Valkey.antt =====
-- valkey/valkey.go: the configuration of a client, and its life.
pub mod Verdict
mod Tests
use gframework.Base.{
  ℕ, String, Bool, true, false, not, ◌&&◌, ◌||◌, ◌==◌, Option, none, some, ℤ, pos, ltb_ℤ, leb_ℤ,
  eqb_ℤ, str_eq, if◌then◌else◌,
}
use gframework.Errors.{GoError, sentinel, wrap, Result, ok, err}

pub record Config : Type 0 where
  pub host : String
  pub port : ℤ
  pub password : String
  pub db : ℤ
  pub dial_timeout : ℤ
  pub max_idle_conns : ℤ
  pub min_idle_conns : ℤ
  pub ping_timeout : ℤ
  pub pool_size : ℤ
  pub read_timeout : ℤ
  pub write_timeout : ℤ
  pub max_retries : ℤ
  pub min_retry_backoff : ℤ
  pub max_retry_backoff : ℤ
  pub tls_enabled : Bool
  pub tls_skip_verify : Bool
  pub tls_cert_file : String
  pub tls_key_file : String
  pub tls_ca_file : String

unfoldable pub validate : Config → Option GoError
validate cfg =
    if str_eq cfg.host ""
    then some (sentinel "ErrInvalidHost")
    else if leb_ℤ cfg.port (pos 0) || ltb_ℤ (pos 65535) cfg.port
    then some (wrap "port" (sentinel "ErrInvalidPort"))
    else if ltb_ℤ cfg.db (pos 0)
    then some (wrap "db" (sentinel "ErrInvalidDB"))
    else if ltb_ℤ cfg.pool_size (pos 0)
    then some (sentinel "ErrInvalidPoolSize")
    else none

-- `value`, or the default for zero.
default_to : ℤ → ℤ → ℤ
default_to standard value = if eqb_ℤ value (pos 0) then standard else value

pub with_defaults : Config → Config
with_defaults cfg = record cfg {
  dial_timeout = default_to (pos 5_000_000_000) cfg.dial_timeout;
  ping_timeout = default_to (pos 3_000_000_000) cfg.ping_timeout;
  read_timeout = default_to (pos 3_000_000_000) cfg.read_timeout;
  write_timeout = default_to (pos 3_000_000_000) cfg.write_timeout;
  pool_size = default_to (pos 10) cfg.pool_size;
  max_idle_conns = default_to (pos 5) cfg.max_idle_conns;
  min_idle_conns = default_to (pos 1) cfg.min_idle_conns;
  max_retries = default_to (pos 3) cfg.max_retries;
  min_retry_backoff = default_to (pos 8_000_000) cfg.min_retry_backoff;
  max_retry_backoff = default_to (pos 512_000_000) cfg.max_retry_backoff;
}

-- `C` is tls.Certificate and `P` a pool of certificate authorities; TLS 1.2 is always the least.
pub record TlsConfig (C P : Type 0) : Type 0 where
  pub insecure_skip_verify : Bool
  pub certificates : Option C
  pub root_cas : Option P

pub record RedisOptions (C P : Type 0) : Type 0 where
  pub addr : String
  pub password : String
  pub db : ℤ
  pub dial_timeout : ℤ
  pub max_idle_conns : ℤ
  pub min_idle_conns : ℤ
  pub pool_size : ℤ
  pub read_timeout : ℤ
  pub write_timeout : ℤ
  pub max_retries : ℤ
  pub min_retry_backoff : ℤ
  pub max_retry_backoff : ℤ
  pub tls_config : Option (TlsConfig C P)

-- crypto/tls and crypto/x509 on the files that there are, net.JoinHostPort, and the client of go-redis
-- on a state `W`, with the number of its connections.
pub record Env (W C P : Type 0) : Type 0 where
  pub load_key_pair : String → String → Result C
  pub read_file : String → Result String
  pub parse_pem : String → Option P
  pub join_host_port : String → ℤ → String
  pub ping : W → Option GoError × W
  pub close : W → Option GoError × W
  pub total_conns : W → ℕ

module _ {W C P : Type 0} (env : Env W C P) where
  root_pool : Option P → Result (Option P)
  root_pool none = err (sentinel "ErrCAParseFailure")
  root_pool (some pool) = ok (some pool)

  load_ca : Result String → Result (Option P)
  load_ca (err e) = err (wrap "failed to read CA certificate" e)
  load_ca (ok pem) = root_pool (env.parse_pem pem)

  certificate : Result C → Result (Option C)
  certificate (err e) = err (wrap "failed to load client certificate" e)
  certificate (ok c) = ok (some c)

  client_certificate : Config → Result (Option C)
  client_certificate cfg =
      if not (str_eq cfg.tls_cert_file "") && not (str_eq cfg.tls_key_file "")
      then certificate (env.load_key_pair cfg.tls_cert_file cfg.tls_key_file)
      else ok none

  root_cas : Config → Result (Option P)
  root_cas cfg =
      if str_eq cfg.tls_ca_file "" then ok none else load_ca (env.read_file cfg.tls_ca_file)

  with_roots : Config → Option C → Result (Option P) → Result (TlsConfig C P)
  with_roots cfg cert (err e) = err e
  with_roots cfg cert (ok pool) =
      ok (record {
        insecure_skip_verify = cfg.tls_skip_verify;
        certificates = cert;
        root_cas = pool;
      })

  with_certificate : Config → Result (Option C) → Result (TlsConfig C P)
  with_certificate cfg (err e) = err e
  with_certificate cfg (ok cert) = with_roots cfg cert (root_cas cfg)

  pub build_tls_config : Config → Result (TlsConfig C P)
  build_tls_config cfg = with_certificate cfg (client_certificate cfg)

  base_options : Config → RedisOptions C P
  base_options cfg = record {
    addr = env.join_host_port cfg.host cfg.port;
    password = cfg.password;
    db = cfg.db;
    dial_timeout = cfg.dial_timeout;
    max_idle_conns = cfg.max_idle_conns;
    min_idle_conns = cfg.min_idle_conns;
    pool_size = cfg.pool_size;
    read_timeout = cfg.read_timeout;
    write_timeout = cfg.write_timeout;
    max_retries = cfg.max_retries;
    min_retry_backoff = cfg.min_retry_backoff;
    max_retry_backoff = cfg.max_retry_backoff;
    tls_config = none;
  }

  add_tls : RedisOptions C P → Result (TlsConfig C P) → Result (RedisOptions C P)
  add_tls opt (err e) = err (wrap "failed to build TLS config" e)
  add_tls opt (ok tls) = ok (record opt { tls_config = some tls })

  pub build_valkey_options : Config → Result (RedisOptions C P)
  build_valkey_options cfg =
      let opt = base_options cfg in
      if cfg.tls_enabled then add_tls opt (build_tls_config cfg) else ok opt

  built : Result (RedisOptions C P) → Result (RedisOptions C P)
  built (err e) = err (wrap "failed to build Valkey options" e)
  built (ok opt) = ok opt

  validated : Config → Option GoError → Result (RedisOptions C P)
  validated cfg (some e) = err e
  validated cfg none = built (build_valkey_options cfg)

  -- The caller's configuration, if there is one, is changed in place.
  pub new : Option Config → Result (RedisOptions C P) × Option Config
  new none = (err (sentinel "ErrConfigNil"), none)
  new (some given) = let cfg = with_defaults given in (validated cfg (validate cfg), some cfg)

  wrapped : String → Option GoError → Option GoError
  wrapped text none = none
  wrapped text (some e) = some (wrap text e)

  -- `Stop` and `HealthCheck` look for a missing client first.
  pub start : W → Option GoError × W
  start w = let (e, w') = env.ping w in (wrapped "valkey ping failed" e, w')

  pub stop : Bool → W → Option GoError × W
  stop false w = (some (sentinel "ErrValkeyPoolNil"), w)
  stop true w = let (e, w') = env.close w in (wrapped "failed to close Valkey client" e, w')

  unfoldable pub checked : Option GoError × W → Option GoError × W
  checked (some e, w) = (some (wrap "valkey health check failed" e), w)
  checked (none, w) =
      ((if env.total_conns w == 0 then some (sentinel "ErrHealthCheckNoActiveConns") else none), w)

  unfoldable pub health_check : Bool → W → Option GoError × W
  health_check false w = (some (sentinel "ErrValkeyPoolNil"), w)
  health_check true w = checked (env.ping w)
