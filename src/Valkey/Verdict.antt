-- ===== src/Valkey/Verdict.antt =====
-- valkey/valkey.go: which configurations `New` accepts, and with what options.
use gframework.Base.{
  ◌≡◌, refl, Bool, true, false, not, ◌&&◌, Option, none, some, ℤ, pos, ltb_ℤ, leb_ℤ, eqb_ℤ, str_eq,
  arith,
}
use gframework.Errors.{GoError, Result, ok, err}
use gframework.Valkey.{
  Config, RedisOptions, TlsConfig, Env, default_to, with_defaults, build_tls_config, new,
}

-- What the fields of a configuration must satisfy, whatever its defaults.
pub is_valid : Config → Bool
is_valid cfg =
    not (str_eq cfg.host "")
    && (ltb_ℤ (pos 0) cfg.port
        && (leb_ℤ cfg.port (pos 65535) && (leb_ℤ (pos 0) cfg.db && leb_ℤ (pos 0) cfg.pool_size)))

abbrev pub is_ok {ℓ} : {A : Type ℓ} → Result A → Bool
is_ok (ok a) = true
is_ok (err e) = false

-- No time, count or size is left at zero, and the pool holds a connection.
pub record IsUsable {C P : Type 0} (cfg : Config) (o : RedisOptions C P) : Type 0 where
  pub valid : is_valid cfg ≡ true
  pub same_db : o.db ≡ cfg.db
  pub pool : ltb_ℤ (pos 0) o.pool_size ≡ true
  pub dial : eqb_ℤ o.dial_timeout (pos 0) ≡ false
  pub reads : eqb_ℤ o.read_timeout (pos 0) ≡ false
  pub writes : eqb_ℤ o.write_timeout (pos 0) ≡ false
  pub retries : eqb_ℤ o.max_retries (pos 0) ≡ false
  pub idle : eqb_ℤ o.max_idle_conns (pos 0) ≡ false
  pub shortest : eqb_ℤ o.min_retry_backoff (pos 0) ≡ false
  pub longest : eqb_ℤ o.max_retry_backoff (pos 0) ≡ false

default_to-again : (d x : ℤ) → default_to d (default_to d x) ≡ default_to d x
unfolding default_to
default_to-again d x = ground arith

with_defaults-again : (cfg : Config) → with_defaults (with_defaults cfg) ≡ with_defaults cfg
unfolding with_defaults
with_defaults-again cfg = simp default_to-again

module _ {W C P : Type 0} (env : Env W C P) where
  pub data Verdict (cfg : Config) : Result (RedisOptions C P) → Type 0 where
    accepted :
        (o : RedisOptions C P)
        → IsUsable cfg o
        → cfg.tls_enabled ≡ false
        → o.tls_config ≡ none
        → Verdict cfg (ok o)
    accepted_tls :
        (o : RedisOptions C P) (tls : TlsConfig C P)
        → IsUsable cfg o
        → cfg.tls_enabled ≡ true
        → build_tls_config env (with_defaults cfg) ≡ ok tls
        → o.tls_config ≡ some tls
        → Verdict cfg (ok o)
    refused : (e : GoError) → is_valid cfg ≡ false → Verdict cfg (err e)
    tls_failed :
        (e : GoError)
        → is_valid cfg ≡ true
        → cfg.tls_enabled ≡ true
        → is_ok (build_tls_config env (with_defaults cfg)) ≡ false
        → Verdict cfg (err e)

  -- `New` changes the configuration that it is given, and calling it again with that configuration
  -- gives the same answer and changes nothing more.
  pub new-again : (given : Option Config) → new env (new env given).1 ≡ new env given
  unfolding new
  new-again none = refl
  new-again (some cfg) = rw (with_defaults-again cfg) refl
