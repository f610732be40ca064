-- ===== src/Httpclient/Request.antt =====
-- httpclient/client.go and httpclient/options.go: the configuration of a request, its headers and URL.
pub mod Headers
pub mod Url
mod Tests
use Prim.Native.Char.{code}
use Prim.Native.String
use gframework.Base.{
  String, ◌≡◌, Bool, true, false, not, ◌&&◌, Option, none, some, List, [], ◌∷◌, ℤ, pos, ◌==◌,
  if◌then◌else◌, copy, insert, lookup, str_eq,
}
use gframework.Errors.{GoError, join, sentinel, Result, ok, err}
use gframework.Httpclient.Client.{Client}

-- An empty text stands for a request id that was not given.
pub record RequestConfig : Type 0 where
  pub headers : List (String × String)
  pub query : List (String × String)
  pub timeout : ℤ
  pub request_id : String

abbrev pub RequestOption : Type 0
RequestOption = RequestConfig → RequestConfig

unfoldable pub with_request_header : String → String → RequestOption
with_request_header key value rc = record rc { headers = insert key value rc.headers }

pub with_request_timeout : ℤ → RequestOption
with_request_timeout timeout rc = record rc { timeout = timeout }

unfoldable pub with_request_id : String → RequestOption
with_request_id request_id rc = record rc { request_id = request_id }

pub with_query : String → String → RequestOption
with_query key value rc = record rc { query = insert key value rc.query }

pub with_query_params : List (String × String) → RequestOption
with_query_params params rc = record rc { query = copy rc.query params }

abbrev pub apply_options : List RequestOption → RequestConfig → RequestConfig
apply_options [] c = c
apply_options (o ∷ os) c = apply_options os (o c)

abbrev or_fresh : Option String → String → String
or_fresh none fresh = fresh
or_fresh (some id) fresh = if str_eq id "" then fresh else id

-- `values` are the texts in the request's context; `fresh` is the UUID that is drawn at need.
pub extract_request_id : Client → (String → Option String) → String → String
extract_request_id c values fresh = elim c.request_id_key [
  | none ↦ fresh
  | some key ↦ or_fresh (values key) fresh
]

abbrev name_request : String → RequestConfig → RequestConfig
name_request id cfg = if str_eq cfg.request_id "" then record cfg { request_id = id } else cfg

unfoldable pub build_request_config :
    Client → (String → Option String) → String → List RequestOption → RequestConfig
unfolding extract_request_id
build_request_config c values fresh opts =
    name_request (extract_request_id c values fresh)
      (apply_options opts (record { headers = []; query = []; timeout = pos 0; request_id = "" }))

-- `path != "" && !strings.HasPrefix(path, "/")`
needs_slash : String → Bool
needs_slash String.[] = false
needs_slash (String.◌∷◌ c s) = not (code c == b'/')

-- `encode` is `url.Values.Encode` of the query.
unfoldable pub build_url :
    (encode : List (String × String) → String) → Client → String → List (String × String) → String
unfolding needs_slash
build_url encode c path [] =
    String.◌++◌ c.base_url (if needs_slash path then String.◌++◌ "/" path else path)
build_url encode c path (q ∷ query) = String.◌++◌ c.base_url (
    String.◌++◌ (if needs_slash path then String.◌++◌ "/" path else path)
      (String.◌++◌ "?" (encode (q ∷ query))))

pub record Request : Type 0 where
  pub method : String
  pub url : String
  pub headers : List (String × String)
  pub body : Option String

-- `req.Header.Set` for each entry of a map; `canonical` is the standard library's canonical form of a
-- header's name.
abbrev pub set_all :
    (String → String) → List (String × String) → List (String × String) → List (String × String)
set_all canonical header [] = header
set_all canonical header ((k, v) ∷ m) = set_all canonical (insert (canonical k) v header) m

unfoldable pub build_headers : (String → String) → Client → RequestConfig → List (String × String)
build_headers canonical c cfg =
    let header = set_all canonical (set_all canonical [] c.default_headers) cfg.headers in
    if str_eq cfg.request_id ""
    then header
    else insert (canonical "X-Request-ID") cfg.request_id header

-- What the standard library does in building a request.
pub record Net (B : Type 0) : Type 0 where
  pub canonical : String → String
  pub encode : List (String × String) → String
  pub marshal : B → Result String
  pub check_request : String → String → Option GoError

pub body_text : Result String → Result (Option String)
body_text (ok text) = ok (some text)
body_text (err e) = err (join (sentinel "ErrEncodeBody") e)

abbrev pub encoded : {B : Type 0} → Net B → Option B → Result (Option String)
encoded net none = ok none
encoded net (some b) = body_text (net.marshal b)

unfoldable pub build_request :
    {B : Type 0} → Net B → Client → String → String → Option B → RequestConfig → Result Request
unfolding body_text build_headers build_url
build_request net c method path body cfg =
    let url = build_url net.encode c path cfg.query in
    elim (encoded net body) [
      | err e ↦ err e
      | ok text ↦ elim (net.check_request method url) [
        | some e ↦ err (join (sentinel "ErrCreateRequest") e)
        | none ↦ ok (record {
          method = method;
          url = url;
          headers = build_headers net.canonical c cfg;
          body = text;
        })
      ]
    ]
