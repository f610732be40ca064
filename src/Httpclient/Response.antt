-- ===== src/Httpclient/Response.antt =====
-- httpclient/client.go, httpclient/errors.go and httpclient/generic.go: sending a request and reading
-- its response.
pub mod Limits
pub mod Sending
pub mod Head
mod Tests
use Prim.Native.String.{◌++◌ as append}
use gframework.Base.{
  ℕ, suc, ◌+◌, ◌≤◌, String, ◌≡◌, Bool, true, false, not, ◌||◌, ◌&&◌, Option, none, some, List, [],
  ◌∷◌, ℤ, pos, negsuc, ltb, leb, if◌then◌else◌, insert, str_eq, length, take, ltb_ℤ, wrap_64,
  pos_part,
}
use gframework.Errors.{GoError, foreign, sentinel, join, Result, ok, err}
use gframework.Httpclient.Client.{Client, TokenProvider}
use gframework.Httpclient.Request.{
  RequestConfig, RequestOption, Request, Net, build_request_config, build_request,
}

abbrev pub Bytes : Type 0
Bytes = List ℕ

-- The body of a response: the bytes that arrive, and the error with which reading then ends, if any.
pub record Body : Type 0 where
  pub bytes : Bytes
  pub failure : Option GoError

pub record Response : Type 0 where
  pub status_code : ℕ
  pub request_id : String  -- the X-Request-ID header, empty if missing
  pub body : Body

-- httpclient/errors.go: an error that answers to ErrServiceError
pub record ServiceError : Type 0 where
  pub status_code : ℕ
  pub message : String
  pub internal : String
  pub request_id : String

pub data ClientError : Type 0 where
  service_error : ServiceError → ClientError
  go_error : GoError → ClientError

-- io.ReadAll
pub read_all : Body → Result Bytes
read_all b = elim b.failure [ none ↦ ok b.bytes | some e ↦ err e ]

-- io.ReadAll of io.LimitReader(body, n): the end of the body, good or bad, is seen only if it comes
-- within the limit.
pub read_limited : ℕ → Body → Result Bytes
read_limited n b = if leb n (length b.bytes) then ok (take n b.bytes) else read_all b

abbrev pub is_success : ℕ → Bool
is_success status = not (ltb status 200 || leb 300 status)

-- What encoding/json does: a message and its internal text, or a value.
pub record Json (V : Type 0) : Type 0 where
  pub error_response : Bytes → Option (String × String)
  pub unmarshal : Bytes → Result V
  pub text : Bytes → String

module _ {V : Type 0} (json : Json V) where
  message_of : ℕ → String → Bytes → Option (String × String) → ServiceError
  message_of status request_id bytes none = record {
    status_code = status;
    message = json.text bytes;
    internal = "";
    request_id = request_id;
  }
  message_of status request_id bytes (some (message, internal)) =
      if str_eq message ""
      then record {
        status_code = status;
        message = json.text bytes;
        internal = "";
        request_id = request_id;
      }
      else record {
        status_code = status;
        message = message;
        internal = internal;
        request_id = request_id;
      }

  pub handle_error_response : Response → String → ClientError
  handle_error_response resp request_id = elim (read_all resp.body) [
    | err e ↦ service_error (record {
      status_code = resp.status_code;
      message = "";
      internal = "";
      request_id = request_id;
    })
    | ok bytes ↦
        service_error (message_of resp.status_code request_id bytes (json.error_response bytes))
  ]

  -- `max` is the size limit as a number; 0 means none.
  decode : ℕ → Result Bytes → Option ClientError × Option V
  decode max (err e) = (some (go_error (join (sentinel "ErrDecodeResponse") e)), none)
  decode max (ok bytes) =
      if ltb 0 max && ltb max (length bytes)
      then (some (go_error (sentinel "ErrResponseTooLarge")), none)
      else elim (json.unmarshal bytes) [
        | err e ↦ (some (go_error (join (sentinel "ErrDecodeResponse") e)), none)
        | ok v ↦ (none, some v)
      ]

  -- `maxResponseSize + 1` is an `int64`, which wraps; a reader with a negative limit reads nothing.
  read_body : ℕ → Body → Result Bytes
  read_body max body =
      if ltb 0 max then read_limited (pos_part (wrap_64 (pos (suc max)))) body else read_all body

  abbrev pub limit_of : ℤ → ℕ
  limit_of (pos n) = n
  limit_of (negsuc n) = 0

  abbrev pub or_sent : String → String → String
  or_sent request_id sent = if str_eq request_id "" then sent else request_id

  -- `wanted` says that the caller gave a place for the response.
  pub handle_response : Client → Bool → Response → String → Option ClientError × Option V
  handle_response c wanted resp request_id =
      if not (is_success resp.status_code)
      then (some (handle_error_response resp (or_sent resp.request_id request_id)), none)
      else if not wanted
      then (none, none)
      else decode (limit_of c.max_response_size)
          (read_body (limit_of c.max_response_size) resp.body)

-- The network, the token provider, and the clock of a request's timeout act on a state `W`.
pub record Env (W : Type 0) : Type 0 where
  pub get_token : TokenProvider → W → Result String × W
  pub send : Request → W → Result Response × W

module _ {W V B : Type 0} (env : Env W) (net : Net B) (json : Json V) (c : Client)
    (values : String → Option String) (fresh : String) where
  -- The token goes into the request's own headers.
  authorize : Result String → RequestConfig → Result RequestConfig
  authorize (err e) cfg = err (join (sentinel "ErrAuthFailed") e)
  authorize (ok token) cfg =
      ok (record cfg { headers = insert "Authorization" (append "Bearer " token) cfg.headers })

  add_token : RequestConfig → W → Result RequestConfig × W
  unfolding authorize
  add_token cfg w = elim c.token_provider [
    | none ↦ (ok cfg, w)
    | some provider ↦ let (token, w') = env.get_token provider w in (authorize token cfg, w')
  ]

  pub received : Bool → String → Result Response → Option ClientError × Option V
  received wanted request_id (err e) =
      (some (go_error (join (sentinel "ErrRequestFailed") e)), none)
  received wanted request_id (ok resp) = handle_response json c wanted resp request_id

  send_built : Bool → String → Result Request → W → (Option ClientError × Option V) × W
  send_built wanted request_id (err e) w = ((some (go_error e), none), w)
  send_built wanted request_id (ok req) w =
      let (resp, w') = env.send req w in (received wanted request_id resp, w')

  send_authorized :
      String
      → String
      → Option B
      → Bool
      → Result RequestConfig × W
      → (Option ClientError × Option V) × W
  send_authorized method path body wanted (err e, w) = ((some (go_error e), none), w)
  send_authorized method path body wanted (ok cfg, w) =
      send_built wanted cfg.request_id (build_request net c method path body cfg) w

  -- The method `do`, which `Get`, `Post`, `Put`, `Patch`, `Delete` and `Do` call.
  pub do_request :
      String
      → String
      → Option B
      → Bool
      → List RequestOption
      → W
      → (Option ClientError × Option V) × W
  do_request method path body wanted opts w =
      send_authorized method path body wanted
        (add_token (build_request_config c values fresh opts) w)

  pub get : String → Bool → List RequestOption → W → (Option ClientError × Option V) × W
  get path wanted opts = do_request "GET" path none wanted opts

  pub post : String → Option B → Bool → List RequestOption → W → (Option ClientError × Option V) × W
  post path body wanted opts = do_request "POST" path body wanted opts

  pub put : String → Option B → Bool → List RequestOption → W → (Option ClientError × Option V) × W
  put path body wanted opts = do_request "PUT" path body wanted opts

  pub patch :
      String → Option B → Bool → List RequestOption → W → (Option ClientError × Option V) × W
  patch path body wanted opts = do_request "PATCH" path body wanted opts

  pub delete : String → Bool → List RequestOption → W → (Option ClientError × Option V) × W
  delete path wanted opts = do_request "DELETE" path none wanted opts
