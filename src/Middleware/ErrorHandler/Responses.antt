-- ===== src/Middleware/ErrorHandler/Responses.antt =====
-- middleware/error_handler.go: which responses are written.
use gframework.Base.{suc, ℕ, String, Option, none, List, [], ◌∷◌}
use gframework.Middleware.ErrorHandler.{
  Body, error_body, custom_body, Effect, logged, wrote, called_next,
}

-- The responses among the effects.
abbrev pub responses : List Effect → List (ℕ × Body)
responses [] = []
responses (logged l ∷ es) = responses es
responses (wrote code b ∷ es) = (code, b) ∷ responses es
responses (called_next ∷ es) = responses es

abbrev pub internal_of : Body → Option String
internal_of (error_body m i) = i
internal_of (custom_body s) = none

-- How often the next handler is called.
abbrev pub passes : List Effect → ℕ
passes [] = 0
passes (logged l ∷ es) = passes es
passes (wrote code b ∷ es) = passes es
passes (called_next ∷ es) = suc (passes es)
