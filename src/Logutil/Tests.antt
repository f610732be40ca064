-- ===== src/Logutil/Tests.antt =====
-- Runs of logutil/loglevel.go.
use gframework.Base.{◌≡◌, refl}
use gframework.Logutil.{info, panic, parse_zerolog_level, parse_postgres_log_level}

runs :
    (parse_zerolog_level "panic" ≡ panic)
    × (parse_postgres_log_level "panic" ≡ info)
    × (parse_zerolog_level "WARN" ≡ info)
unfolding parse_zerolog_level parse_postgres_log_level
runs = (refl, refl, refl)
