-- ===== src/Middleware/RequestLogger/Fields.antt =====
-- middleware/request_logger.go: what stands in the log.
use Prim.Native.String.{◌++◌ as append}
use gframework.Base.{
  String, ◌≡◌, refl, Option, none, some, List, [], ◌∷◌, ◌&&◌, not, str_eq, if◌then◌else◌, lookup,
  or_else, last_of, copy, or_else_assoc, lookup-copy, lookup-insert, arith,
}
use gframework.Errors.{GoError, Result, ok, err}
use gframework.Middleware.Claims.{Context}
use gframework.Middleware.RequestLogger.{
  Field, text_field, number_field, Fields, LogFieldExtractor, Request, Response, extract_log_fields,
  add_extra_log_fields, id_of, with_request_id, Served, Logged, line, after_response, after_next,
  request_logger,
}

-- The value that the last extractor with the field gives it.
pub last_given : String → List LogFieldExtractor → Context → Option Field
last_given k [] ctx = none
last_given k (extractor ∷ extractors) ctx =
    or_else (last_given k extractors ctx) (last_of k (extractor ctx))

add_extra_log_fields-last_given :
    (k : String) (fields : Fields) (ctx : Context) (extractors : List LogFieldExtractor)
    → lookup k (add_extra_log_fields fields ctx extractors)
      ≡ or_else (last_given k extractors ctx) (lookup k fields)
unfolding add_extra_log_fields last_given
add_extra_log_fields-last_given k fields ctx [] = refl
add_extra_log_fields-last_given k fields ctx (extractor ∷ extractors) =
    rw
      (
        add_extra_log_fields-last_given k (copy fields (extractor ctx)) ctx extractors,
        lookup-copy k fields (extractor ctx),
        or_else_assoc (last_given k extractors ctx) (last_of k (extractor ctx)) (lookup k fields),
      )
      refl

module _ (extractors : List LogFieldExtractor) (req : Request) (latency : String) where
  -- The fields of the request and the response, as a table.
  pub standard_field : Response → String → Option Field
  standard_field res k =
      if str_eq "remote_ip" k
      then some (text_field req.real_ip)
      else if str_eq "latency" k
      then some (text_field latency)
      else if str_eq "host" k
      then some (text_field req.host)
      else if str_eq "request" k
      then some (text_field (append (append req.method " ") req.url))
      else if str_eq "request_uri" k
      then some (text_field req.request_uri)
      else if str_eq "status" k
      then some (number_field res.status)
      else if str_eq "size" k
      then some (number_field res.size)
      else if str_eq "user_agent" k
      then some (text_field req.user_agent)
      else none

  extract_log_fields-standard_field :
      (res : Response) (k : String)
      → lookup k (extract_log_fields req latency res) ≡ standard_field res k
  unfolding extract_log_fields standard_field lookup
  extract_log_fields-standard_field res k = refl

  -- The field `k` of a line, as a table.
  pub field_of : Context → Response → String → Option Field
  field_of ctx res k = or_else (last_given k extractors ctx) (
      if str_eq "source" k
      then some (text_field "gframework")
      else if str_eq "request_id" k && not (str_eq (id_of (ctx.values "requestID")) "")
      then some (text_field (id_of (ctx.values "requestID")))
      else standard_field res k)

  with_request_id-lookup :
      (id k : String) (fields : Fields)
      → lookup k (with_request_id id fields) ≡ (
          if str_eq "request_id" k && not (str_eq id "")
          then some (text_field id)
          else lookup k fields)
  with_request_id-lookup id k fields =
      ground (arith, lookup-insert "request_id" k (text_field id) fields)

  line-field_of :
      (ctx : Context) (res : Response) (k : String)
      → lookup k (line extractors req latency ctx res) ≡ field_of ctx res k
  unfolding line field_of
  line-field_of ctx res k =
      rw
        (
          add_extra_log_fields-last_given k _ ctx extractors,
          lookup-insert "source" k (text_field "gframework") (
              with_request_id (id_of (ctx.values "requestID"))
                (extract_log_fields req latency res)),
          with_request_id-lookup (id_of (ctx.values "requestID")) k
              (extract_log_fields req latency res),
          extract_log_fields-standard_field res k,
        )
        refl

  -- How a request is logged.
  pub data LoggedAs (served : Served) : Logged → Type 0 where
    not_served : (e : GoError) → served.failure ≡ some e → LoggedAs served (some e, [])
    no_response :
        (e : GoError)
        → served.failure ≡ none
        → served.response ≡ err e
        → LoggedAs served (some e, [])
    written :
        (res : Response) (fields : Fields)
        → served.failure ≡ none
        → served.response ≡ ok res
        → ((k : String) → lookup k fields ≡ field_of served.context res k)
        → LoggedAs served (none, fields ∷ [])

  after_response-LoggedAs :
      (served : Served) (response : Result Response)
      → served.failure ≡ none
      → served.response ≡ response
      → LoggedAs served (after_response extractors req latency served.context response)
  unfolding after_response
  after_response-LoggedAs served (err e) well r = no_response e well r
  after_response-LoggedAs served (ok res) well r =
      written res _ well r (line-field_of served.context res)

  after_next-LoggedAs :
      (served : Served) (failure : Option GoError)
      → served.failure ≡ failure
      → LoggedAs served (after_next extractors req latency failure served)
  unfolding after_next
  after_next-LoggedAs served (some e) f = not_served e f
  after_next-LoggedAs served none f = after_response-LoggedAs served served.response f refl

  -- A request whose handler fails gives back the handler's error and writes nothing, one whose response
  -- cannot be unwrapped gives back that error and writes nothing, and every other request gives no error
  -- and writes one line. Each field of the line has the value of the last extractor that gives it; if
  -- none does, "source" is the framework's name, "request_id" the identifier in the context unless that
  -- is missing or empty, and the others those of the request and the response.
  pub request_logger-LoggedAs :
      (next : Context → Served) (ctx : Context)
      → LoggedAs (next ctx) (request_logger extractors req latency next ctx)
  unfolding request_logger
  request_logger-LoggedAs next ctx = after_next-LoggedAs (next ctx) (next ctx).failure refl
