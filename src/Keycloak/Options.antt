-- ===== src/Keycloak/Options.antt =====
-- keycloak/options.go, and the construction of the admin client of keycloak/admin.go with its token
-- provider. The HTTP clients of libraries that other options set are left out.
use gframework.Base.{some, List, [], ◌∷◌, ℤ, pos, ltb_ℤ, if◌then◌else◌}
use gframework.Authtoken.{Client, new, with_token_expiry_buffer}

-- An option changes the safety buffer.
abbrev pub AdminOption : Type 0
AdminOption = ℤ → ℤ

pub with_token_safety_buffer : ℤ → AdminOption
with_token_safety_buffer buffer old = if ltb_ℤ (pos 0) buffer then buffer else old

abbrev pub apply_options : List AdminOption → ℤ → ℤ
apply_options [] buffer = buffer
apply_options (o ∷ os) buffer = apply_options os (o buffer)

-- The token provider of a new client.
pub new_admin_client : List AdminOption → Client
new_admin_client opts =
    new (some (with_token_expiry_buffer (apply_options opts (pos 60_000_000_000))) ∷ [])
