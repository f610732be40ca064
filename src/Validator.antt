-- ===== src/Validator.antt =====
-- validator/validator.go: the messages for the rules that failed. The rules are go-playground's.
pub mod Messages
mod Tests
use Prim.Native.String
use gframework.Base.{
  String, Bool, true, false, Option, none, some, List, [], ◌∷◌, map, str_eq, if◌then◌else◌,
}
use gframework.Errors.{GoError}

-- validator.FieldError: the name from the tag (empty without one), the name of the Go field, the rule
-- with its parameter, and the value as `%v` prints it.
pub record FieldError : Type 0 where
  pub field : String
  pub struct_field : String
  pub tag : String
  pub param : String
  pub value : String

pub record ValidationError : Type 0 where
  pub field : String
  pub tag : String
  pub value : String
  pub message : String

pub get_simple_error_message : String → String → String
get_simple_error_message field tag =
    if str_eq tag "required"
    then String.◌++◌ field " is required"
    else if str_eq tag "email"
    then String.◌++◌ field " must be a valid email address"
    else if str_eq tag "url"
    then String.◌++◌ field " must be a valid URL"
    else if str_eq tag "uri"
    then String.◌++◌ field " must be a valid URI"
    else if str_eq tag "alphanum"
    then String.◌++◌ field " must contain only alphanumeric characters"
    else if str_eq tag "numeric"
    then String.◌++◌ field " must be numeric"
    else if str_eq tag "uuid"
    then String.◌++◌ field " must be a valid UUID"
    else ""

-- fmt.Sprintf("%s<text>%s<ending>", field, param)
with_param : String → String → String → String → String
with_param field text param ending = String.◌++◌ field (String.◌++◌ text (String.◌++◌ param ending))

pub get_parameterized_error_message : String → FieldError → String
get_parameterized_error_message field e =
    if str_eq e.tag "min"
    then with_param field " must be at least " e.param ""
    else if str_eq e.tag "max"
    then with_param field " must be at most " e.param ""
    else if str_eq e.tag "len"
    then with_param field " must be exactly " e.param " characters"
    else if str_eq e.tag "gt"
    then with_param field " must be greater than " e.param ""
    else if str_eq e.tag "gte"
    then with_param field " must be greater than or equal to " e.param ""
    else if str_eq e.tag "lt"
    then with_param field " must be less than " e.param ""
    else if str_eq e.tag "lte"
    then with_param field " must be less than or equal to " e.param ""
    else if str_eq e.tag "oneof"
    then with_param field " must be one of [" e.param "]"
    else if str_eq e.tag "regexp"
    then String.◌++◌ field " must match the required pattern"
    else with_param field " failed validation on '" e.tag "'"

unfoldable pub generate_error_message : String → FieldError → String
generate_error_message field e =
    let simple : String = get_simple_error_message field e.tag in
    if str_eq simple "" then get_parameterized_error_message field e else simple

unfoldable pub display_name : FieldError → String
display_name e = if str_eq e.field "" then e.struct_field else e.field

unfoldable pub format_error : FieldError → ValidationError
format_error e =
    let field : String = display_name e in
    record { field = field; tag = e.tag; value = e.value; message = generate_error_message field e }

unfoldable pub format_validation_errors : List FieldError → List ValidationError
format_validation_errors [] = []
format_validation_errors (e ∷ errs) = format_error e ∷ format_validation_errors errs

abbrev join_messages : List String → String
join_messages [] = ""
join_messages (m ∷ []) = m
join_messages (m ∷ (n ∷ ms)) = String.◌++◌ m (String.◌++◌ "; " (join_messages (n ∷ ms)))

-- `ValidationErrors.Error`
unfoldable pub error_text : List ValidationError → String
error_text errs = join_messages (map (λ e. e.message) errs)

-- The fields that break a rule, or another error of the library (for a value that is no struct).
pub data Invalid (A : Type 0) : Type 0 where
  fields : List A → Invalid A
  other : GoError → Invalid A

-- `rules` is the method `Struct` of go-playground's validator.
pub validate :
    {T : Type 0} → (rules : T → Option (Invalid FieldError)) → T → Option (Invalid ValidationError)
validate rules value = elim (rules value) [
  | none ↦ none
  | some (fields errs) ↦ some (fields (format_validation_errors errs))
  | some (other e) ↦ some (other e)
]
