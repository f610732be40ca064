-- ===== src/Metricserver.antt =====
-- metricserver/server.go: the life of the server for metrics; its two routes are Echo's.
mod Tests
use gframework.Base.{String, Bool, true, false, Option, none, some, ℤ, if◌then◌else◌}
use gframework.Errors.{GoError, sentinel, wrap}

pub record Config : Type 0 where
  pub host : String
  pub port : ℤ
  pub read_timeout : ℤ
  pub write_timeout : ℤ
  pub grace_period : ℤ

-- `started` says whether there is an http.Server.
pub record Server : Type 0 where
  pub grace_period : ℤ
  pub read_timeout : ℤ
  pub write_timeout : ℤ
  pub address : String
  pub started : Bool

-- `join_host_port` is net.JoinHostPort of the host and the port's digits.
pub new : (join_host_port : String → ℤ → String) → Config → Server
new join_host_port cfg = record {
  grace_period = cfg.grace_period;
  read_timeout = cfg.read_timeout;
  write_timeout = cfg.write_timeout;
  address = join_host_port cfg.host cfg.port;
  started = false;
}

module _ {W : Type 0} where
  -- The goroutine that listens only logs its error.
  pub start : (listen : Server → W → W) → Server → W → Server × W
  start listen s w = (record s { started = true }, listen s w)

  stopped : Option GoError × W → Option GoError × W
  stopped (none, w) = (none, w)
  stopped (some e, w) = (some (wrap "failed to stop metrics server" e), w)

  pub stop : (shutdown : ℤ → W → Option GoError × W) → Server → W → Option GoError × W
  stop shutdown s w =
      if s.started
      then stopped (shutdown s.grace_period w)
      else (some (sentinel "metrics server is not running"), w)
