-- ===== src/Demo/Clients/Tests.antt =====
-- Runs of the settings that examples/demo-api/main.go passes on.
use gframework.Base.{ℕ, ◌≡◌, refl, none, pos, negsuc}
use gframework.Demo.Config.{env_defaults}
use gframework.Demo.Clients.{http_config, int_32, valkey_config, postgres_config}
use gframework.Logutil.{Level}
use gframework.Valkey

abbrev level_number : Level → ℕ
level_number level = 4

-- The defaults pass Valkey's checks; a number of connections above 2^31 - 1 becomes negative.
runs :
    (Valkey.validate (valkey_config env_defaults) ≡ none)
    × ((http_config env_defaults).body_limit ≡ "10M")
    × ((postgres_config (λ n. "5441") level_number env_defaults).max_connection ≡ pos 25)
    × (int_32 (pos 2_147_483_648) ≡ negsuc 2_147_483_647)
    × (int_32 (negsuc 0) ≡ negsuc 0)
unfolding int_32 http_config postgres_config valkey_config Valkey.validate
runs = (refl, refl, refl, refl, refl)
