-- ===== src/Jwks/Tests.antt =====
-- Runs of jwks/keyfunc.go and jwks/options.go.
use gframework.Base.{◌≡◌, refl, [], ◌∷◌, pos, negsuc}
use gframework.Errors.{ok}
use gframework.Jwks.{with_rate_limit_burst, with_refresh_interval, new}

-- A burst that is not positive is ignored.
runs :
    (new (λ cfg. ok cfg.rate_limit_burst) ("u" ∷ []) (with_rate_limit_burst (negsuc 0) ∷ [])
      ≡ ok (pos 5))
    × (new (λ cfg. ok cfg.refresh_interval) [] (with_refresh_interval (pos 9) ∷ []) ≡ ok (pos 9))
    × (new (λ cfg. ok cfg.urls) ("u" ∷ []) [] ≡ ok ("u" ∷ []))
unfolding new with_rate_limit_burst with_refresh_interval
runs = (refl, refl, refl)
