-- ===== src/Validator/Messages.antt =====
-- validator/validator.go: every failed rule has a message that begins with the field.
use Prim.Native.String
use text.Mathlib.TextLemmas.{nil-append, cons-append}
use gframework.Base.{
  cons_nonempty, String, ◌≡◌, refl, Bool, true, false, inl, inr, ◌⊎◌, List, [], ◌∷◌, str_eq,
  if◌then◌else◌,
}
use gframework.Validator.{
  FieldError, ValidationError, get_simple_error_message, with_param,
  get_parameterized_error_message, generate_error_message, display_name, format_error,
  format_validation_errors,
}

append_nonempty :
    (field rest : String) → str_eq rest "" ≡ false → str_eq (String.◌++◌ field rest) "" ≡ false
append_nonempty String.[] rest h = rw nil-append h
append_nonempty (String.◌∷◌ c s) rest h = rw cons-append (cons_nonempty c (String.◌++◌ s rest))

text_nonempty :
    (text rest : String) → str_eq text "" ≡ false → str_eq (String.◌++◌ text rest) "" ≡ false
text_nonempty String.[] rest h = absurd (cc h)
text_nonempty (String.◌∷◌ c s) rest h = rw cons-append (cons_nonempty c (String.◌++◌ s rest))

-- The field, and something more.
abbrev pub Explained : String → String → Type 0
Explained field message =
    (rest : String) × (message ≡ String.◌++◌ field rest) × (str_eq rest "" ≡ false)

Explained-nonempty : (field message : String) → Explained field message → str_eq message "" ≡ false
Explained-nonempty field message (rest, same, more) = rw same (append_nonempty field rest more)

either : (P : String → Type 0) (b : Bool) {x y : String} → P x → P y → P (if b then x else y)
either P true px py = px
either P false px py = py

with_param-Explained :
    (field text param ending : String)
    → str_eq text "" ≡ false
    → Explained field (with_param field text param ending)
unfolding with_param
with_param-Explained field text param ending h = (
  String.◌++◌ text (String.◌++◌ param ending),
  refl,
  text_nonempty text (String.◌++◌ param ending) h,
)

module _ (field : String) where
  module _ (e : FieldError) where
    told :
        (text ending : String)
        → str_eq text "" ≡ false
        → Explained field (with_param field text e.param ending)
    told text ending h = with_param-Explained field text e.param ending h

    get_parameterized_error_message-Explained :
        Explained field (get_parameterized_error_message field e)
    unfolding get_parameterized_error_message
    get_parameterized_error_message-Explained =
        either (Explained field) (str_eq e.tag "min") (told " must be at least " "" refl) (
          either (Explained field) (str_eq e.tag "max") (told " must be at most " "" refl) (
            either (Explained field) (str_eq e.tag "len")
              (told " must be exactly " " characters" refl)
              (either (Explained field) (str_eq e.tag "gt") (told " must be greater than " "" refl)
                (either (Explained field) (str_eq e.tag "gte")
                  (told " must be greater than or equal to " "" refl)
                  (either (Explained field) (str_eq e.tag "lt") (told " must be less than " "" refl)
                    (either (Explained field) (str_eq e.tag "lte")
                      (told " must be less than or equal to " "" refl)
                      (either (Explained field) (str_eq e.tag "oneof")
                        (told " must be one of [" "]" refl)
                        (either (Explained field) (str_eq e.tag "regexp")
                          (" must match the required pattern", refl, refl)
                          (with_param-Explained field " failed validation on '" e.tag "'"
                            refl)))))))))

  get_simple_error_message-Explained :
      (tag : String)
      → (get_simple_error_message field tag ≡ "")
        ⊎ Explained field (get_simple_error_message field tag)
  unfolding get_simple_error_message
  get_simple_error_message-Explained tag =
      either (λ m. (m ≡ "") ⊎ Explained field m) (str_eq tag "required")
        (inr (" is required", refl, refl))
        (either (λ m. (m ≡ "") ⊎ Explained field m) (str_eq tag "email")
          (inr (" must be a valid email address", refl, refl))
          (either (λ m. (m ≡ "") ⊎ Explained field m) (str_eq tag "url")
            (inr (" must be a valid URL", refl, refl))
            (either (λ m. (m ≡ "") ⊎ Explained field m) (str_eq tag "uri")
              (inr (" must be a valid URI", refl, refl))
              (either (λ m. (m ≡ "") ⊎ Explained field m) (str_eq tag "alphanum")
                (inr (" must contain only alphanumeric characters", refl, refl))
                (either (λ m. (m ≡ "") ⊎ Explained field m) (str_eq tag "numeric")
                  (inr (" must be numeric", refl, refl))
                  (either (λ m. (m ≡ "") ⊎ Explained field m) (str_eq tag "uuid")
                    (inr (" must be a valid UUID", refl, refl)) (inl refl)))))))

  generate_error_message-Explained :
      (e : FieldError) → Explained field (generate_error_message field e)
  unfolding generate_error_message
  generate_error_message-Explained e = elim (get_simple_error_message-Explained e.tag) [
    | inl silent ↦ rw silent (get_parameterized_error_message-Explained e)
    | inr said ↦ rw (Explained-nonempty field (get_simple_error_message field e.tag) said) said
  ]

-- The errors of an answer, rule by rule.
pub data Explains : List FieldError → List ValidationError → Type 0 where
  nothing : Explains [] []
  also :
      {e : FieldError} {v : ValidationError} {es : List FieldError} {vs : List ValidationError}
      → (v.field ≡ (if str_eq e.field "" then e.struct_field else e.field))
      → v.tag ≡ e.tag
      → Explained v.field v.message
      → Explains es vs
      → Explains (e ∷ es) (v ∷ vs)

-- A failed validation has one entry for each failed rule, in the order of the rules. An entry has the
-- name from the tag, or the Go field's if there is none, and a message that begins with this name and
-- says something after it.
pub format_validation_errors-Explains :
    (errs : List FieldError) → Explains errs (format_validation_errors errs)
unfolding format_validation_errors format_error display_name
format_validation_errors-Explains [] = nothing
format_validation_errors-Explains (e ∷ errs) =
    also refl refl (generate_error_message-Explained (display_name e) e)
      (format_validation_errors-Explains errs)
