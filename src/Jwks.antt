-- ===== src/Jwks.antt =====
-- jwks/keyfunc.go and jwks/options.go: the settings of a set of keys, which keyfunc fetches and
-- refreshes.
mod Tests
use gframework.Base.{
  String, Bool, true, false, Option, none, some, List, [], ◌∷◌, ℤ, pos, ltb_ℤ, if◌then◌else◌,
}
use gframework.Errors.{GoError, Result, ok, err}

pub record Config : Type 0 where
  pub urls : List String
  pub rate_limit_burst : ℤ
  pub refresh_timeout : ℤ
  pub refresh_interval : ℤ
  pub rate_limit_wait_max : ℤ
  pub validation_skip_all : Bool

abbrev pub JwksOption : Type 0
JwksOption = Config → Config

pub with_rate_limit_burst : ℤ → JwksOption
with_rate_limit_burst burst cfg =
    if ltb_ℤ (pos 0) burst then record cfg { rate_limit_burst = burst } else cfg

pub with_refresh_timeout : ℤ → JwksOption
with_refresh_timeout timeout cfg =
    if ltb_ℤ (pos 0) timeout then record cfg { refresh_timeout = timeout } else cfg

pub with_refresh_interval : ℤ → JwksOption
with_refresh_interval interval cfg =
    if ltb_ℤ (pos 0) interval then record cfg { refresh_interval = interval } else cfg

pub with_rate_limit_wait_max : ℤ → JwksOption
with_rate_limit_wait_max max_wait cfg = record cfg { rate_limit_wait_max = max_wait }

pub with_validation_skip_all : Bool → JwksOption
with_validation_skip_all skip cfg = record cfg { validation_skip_all = skip }

abbrev pub apply_options : List JwksOption → Config → Config
apply_options [] cfg = cfg
apply_options (o ∷ os) cfg = apply_options os (o cfg)

abbrev default_config : List String → Config
default_config urls = record {
  urls = urls;
  rate_limit_burst = pos 5;
  refresh_timeout = pos 10_000_000_000;
  refresh_interval = pos 3_600_000_000_000;
  rate_limit_wait_max = pos 0;
  validation_skip_all = false;
}

-- `fetch` is keyfunc.NewDefaultOverrideCtx with these settings.
pub new : {K : Type 0} → (fetch : Config → Result K) → List String → List JwksOption → Result K
new fetch urls opts = fetch (apply_options opts (default_config urls))
