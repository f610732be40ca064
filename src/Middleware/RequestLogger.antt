-- ===== src/Middleware/RequestLogger.antt =====
-- middleware/request_logger.go: one line of the log for every request that a handler served.
pub mod Fields
mod Tests
use Prim.Native.String.{◌++◌ as append}
use gframework.Base.{
  String, ◌≡◌, Bool, true, false, Option, none, some, List, [], ◌∷◌, ℤ, str_eq, if◌then◌else◌,
  insert, copy,
}
use gframework.Errors.{GoError, Result, ok, err}
use gframework.Middleware.Claims.{Context, Stored, text, number, claims, token, other}

-- The values of the fields, of type any.
pub data Field : Type 0 where
  text_field : String → Field
  number_field : ℤ → Field
  flag_field : Bool → Field

abbrev pub Fields : Type 0
Fields = List (String × Field)

abbrev pub LogFieldExtractor : Type 0
LogFieldExtractor = Context → Fields

-- The request, with the address that Echo finds for its client, and the response.
pub record Request : Type 0 where
  pub real_ip : String
  pub host : String
  pub method : String
  pub url : String
  pub request_uri : String
  pub user_agent : String

pub record Response : Type 0 where
  pub status : ℤ
  pub size : ℤ

-- `latency` is how long the request took, in words.
pub extract_log_fields : Request → (latency : String) → Response → Fields
extract_log_fields req latency res =
    ("remote_ip", text_field req.real_ip)
    ∷ ("latency", text_field latency)
    ∷ ("host", text_field req.host)
    ∷ ("request", text_field (append (append req.method " ") req.url))
    ∷ ("request_uri", text_field req.request_uri)
    ∷ ("status", number_field res.status)
    ∷ ("size", number_field res.size)
    ∷ ("user_agent", text_field req.user_agent)
    ∷ []

pub add_extra_log_fields : Fields → Context → List LogFieldExtractor → Fields
add_extra_log_fields fields ctx [] = fields
add_extra_log_fields fields ctx (extractor ∷ extractors) =
    add_extra_log_fields (copy fields (extractor ctx)) ctx extractors

abbrev pub id_of : Option Stored → String
id_of none = ""
id_of (some (text s)) = s
id_of (some (number n)) = ""
id_of (some (claims c)) = ""
id_of (some (token t)) = ""
id_of (some other) = ""

abbrev pub with_request_id : String → Fields → Fields
with_request_id id fields =
    if str_eq id "" then fields else insert "request_id" (text_field id) fields

-- What the next handler leaves: its error and the context, whose response may not be Echo's.
pub record Served : Type 0 where
  pub failure : Option GoError
  pub context : Context
  pub response : Result Response

-- The error that goes back, and the lines written.
abbrev pub Logged : Type 0
Logged = Option GoError × List Fields

module _ (extractors : List LogFieldExtractor) (req : Request) (latency : String) where
  pub line : Context → Response → Fields
  line ctx res =
      add_extra_log_fields
        (insert "source" (text_field "gframework")
          (with_request_id (id_of (ctx.values "requestID")) (extract_log_fields req latency res)))
        ctx extractors

  after_response : Context → Result Response → Logged
  after_response ctx (err e) = (some e, [])
  after_response ctx (ok res) = (none, line ctx res ∷ [])

  after_next : Option GoError → Served → Logged
  after_next (some e) served = (some e, [])
  after_next none served = after_response served.context served.response

  pub request_logger : (next : Context → Served) → Context → Logged
  request_logger next ctx = let served = next ctx in after_next served.failure served
