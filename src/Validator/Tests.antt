-- ===== src/Validator/Tests.antt =====
-- Runs of validator/validator.go, and concrete uses of what is proved of it.
use gframework.Base.{String, ◌≡◌, refl, none, some, List, [], ◌∷◌}
use gframework.Errors.{sentinel}
use gframework.Validator.{
  FieldError, other, format_validation_errors, error_text, validate, format_error,
  generate_error_message, get_simple_error_message, display_name, get_parameterized_error_message,
  with_param,
}

abbrev errs : List FieldError
errs =
    record { field = "email"; struct_field = "Email"; tag = "email"; param = ""; value = "x" }
    ∷ (record { field = ""; struct_field = "Age"; tag = "gte"; param = "18"; value = "3" } ∷ [])

runs :
    (error_text (format_validation_errors errs)
      ≡ "email must be a valid email address; Age must be greater than or equal to 18")
    × (validate {T = String} (λ v. none) "ok" ≡ none)
    × (validate {T = String} (λ v. some (other (sentinel "no struct"))) "x"
        ≡ some (other (sentinel "no struct")))
unfolding error_text format_validation_errors validate format_error generate_error_message
    get_simple_error_message display_name get_parameterized_error_message with_param
runs = (refl, refl, refl)
