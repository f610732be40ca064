-- ===== src/Metricserver/Tests.antt =====
-- Runs of metricserver/server.go.
use gframework.Base.{ℕ, suc, ◌≡◌, refl, Option, some, ℤ, pos}
use gframework.Errors.{GoError, sentinel, wrap}
use gframework.Metricserver.{Server, new, start, stop, stopped}

abbrev server : Server
server =
    new (λ h p. ":9090")
      (record {
        host = "";
        port = pos 9090;
        read_timeout = pos 1;
        write_timeout = pos 1;
        grace_period = pos 5;
      })

abbrev never_ends : ℤ → ℕ → Option GoError × ℕ
never_ends grace w = (some (sentinel "deadline"), w)

runs :
    (stop never_ends server 0 ≡ (some (sentinel "metrics server is not running"), 0))
    × (stop never_ends (start (λ s w. suc w) server 0).0 0
        ≡ (some (wrap "failed to stop metrics server" (sentinel "deadline")), 0))
    × ((start (λ s w. suc w) server 0).1 ≡ 1)
unfolding new start stop stopped
runs = (refl, refl, refl)
