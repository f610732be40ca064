-- ===== src/Httpclient/Response/Head.antt =====
-- httpclient/generic.go: typed results, and requests whose response has no body.
use gframework.Base.{
  ℕ, String, ◌≡◌, refl, true, false, not, Option, none, some, List, if◌then◌else◌, Bool-cases, inl,
  inr,
}
use gframework.Errors.{sentinel, join, Result, ok, err}
use gframework.Httpclient.Client.{Client}
use gframework.Httpclient.Request.{
  RequestConfig, RequestOption, Request, Net, build_request_config, build_request,
}
use gframework.Httpclient.Response.{
  Response, ClientError, go_error, is_success, Json, handle_error_response, or_sent,
  handle_response, Env, add_token, received, send_built, send_authorized, do_request, get, post,
  put, patch, delete,
}

-- `Response` of httpclient/options.go.
pub record HeadResponse : Type 0 where
  pub status_code : ℕ
  pub headers : List (String × String)
  pub request_id : String

pub data HeadResult : Type 0 where
  found : HeadResponse → HeadResult
  failed : ClientError → HeadResult

-- `headers_of` are the headers of a response with their first values.
module _ {W V B : Type 0} (env : Env W) (net : Net B) (json : Json V) (c : Client)
    (values : String → Option String) (fresh : String)
    (headers_of : Response → List (String × String)) where
  head_received : String → Result Response → HeadResult
  head_received request_id (err e) = failed (go_error (join (sentinel "ErrRequestFailed") e))
  head_received request_id (ok resp) =
      let id = or_sent json resp.request_id request_id in
      if not (is_success resp.status_code)
      then failed (handle_error_response json resp id)
      else found
          (record { status_code = resp.status_code; headers = headers_of resp; request_id = id })

  send_head : String → Result Request → W → HeadResult × W
  send_head request_id (err e) w = (failed (go_error e), w)
  send_head request_id (ok req) w =
      let (resp, w') = env.send req w in (head_received request_id resp, w')

  head_authorized : String → String → Result RequestConfig × W → HeadResult × W
  head_authorized method path (err e, w) = (failed (go_error e), w)
  head_authorized method path (ok cfg, w) =
      send_head cfg.request_id (build_request net c method path none cfg) w

  pub do_head : String → String → List RequestOption → W → HeadResult × W
  do_head method path opts w =
      head_authorized method path
        (add_token env net json c values fresh (build_request_config c values fresh opts) w)

  pub head : String → List RequestOption → W → HeadResult × W
  head = do_head "HEAD"

  pub options : String → List RequestOption → W → HeadResult × W
  options = do_head "OPTIONS"

  pub error_of : HeadResult → Option ClientError
  error_of (found r) = none
  error_of (failed e) = some e

  head_received-same :
      (request_id : String) (resp : Result Response)
      → error_of (head_received request_id resp)
        ≡ (received env net json c values fresh false request_id resp).0
  unfolding error_of head_received received handle_response
  head_received-same request_id (err e) = refl
  head_received-same request_id (ok resp) = elim (Bool-cases (is_success resp.status_code)) [
    | inl good ↦ rw good refl
    | inr bad ↦ rw bad refl
  ]

  send_head-same :
      (request_id : String) (req : Result Request) (w : W)
      → let (r, w') = send_head request_id req w in
        let ((e, v), w'') = send_built env net json c values fresh false request_id req w in
        (error_of r ≡ e) × (w' ≡ w'')
  unfolding send_head send_built error_of
  send_head-same request_id (err e) w = (refl, refl)
  send_head-same request_id (ok req) w = (head_received-same request_id (env.send req w).0, refl)

  head_authorized-same :
      (method path : String) (answer : Result RequestConfig × W)
      → let (r, w) = head_authorized method path answer in
        let ((e, v), w') =
          send_authorized env net json c values fresh method path none false answer in
        (error_of r ≡ e) × (w ≡ w')
  unfolding head_authorized send_authorized error_of
  head_authorized-same method path (err e, w) = (refl, refl)
  head_authorized-same method path (ok cfg, w) =
      send_head-same cfg.request_id (build_request net c method path none cfg) w

  -- `Head` and `Options` send the same and fail in the same way as `Do` with their method, without a body
  -- and without a place for the response.
  pub do_head-do_request :
      (method path : String) (opts : List RequestOption) (w : W)
      → let (r, w') = do_head method path opts w in
        let ((e, v), w'') = do_request env net json c values fresh method path none false opts w in
        (error_of r ≡ e) × (w' ≡ w'')
  unfolding do_head do_request
  do_head-do_request method path opts w =
      head_authorized-same method path
        (add_token env net json c values fresh (build_request_config c values fresh opts) w)

-- What the functions for JSON return: the zero value where there is no result (what a decoder that
-- fails leaves in the value is not modelled).
module _ {W V B : Type 0} (env : Env W) (net : Net B) (json : Json V) (c : Client)
    (values : String → Option String) (fresh : String) (zero_value : V) where
  json_result : (Option ClientError × Option V) × W → (V × Option ClientError) × W
  json_result ((e, none), w) = ((zero_value, e), w)
  json_result ((e, some v), w) = ((v, e), w)

  pub do_json : String → String → Option B → List RequestOption → W → (V × Option ClientError) × W
  do_json method path body opts w =
      json_result (do_request env net json c values fresh method path body true opts w)

  pub get_json : String → List RequestOption → W → (V × Option ClientError) × W
  get_json path opts w = json_result (get env net json c values fresh path true opts w)

  pub post_json : String → Option B → List RequestOption → W → (V × Option ClientError) × W
  post_json path body opts w = json_result (post env net json c values fresh path body true opts w)

  pub put_json : String → Option B → List RequestOption → W → (V × Option ClientError) × W
  put_json path body opts w = json_result (put env net json c values fresh path body true opts w)

  pub patch_json : String → Option B → List RequestOption → W → (V × Option ClientError) × W
  patch_json path body opts w =
      json_result (patch env net json c values fresh path body true opts w)

  pub delete_json : String → List RequestOption → W → (V × Option ClientError) × W
  delete_json path opts w = json_result (delete env net json c values fresh path true opts w)
