-- ===== src/Httpclient/Response/Sending.antt =====
-- httpclient/client.go: what is sent.
use Prim.Native.String.{◌++◌ as append}
use gframework.Base.{String, ◌≡◌, Bool, Option, none, some, List, insert}
use gframework.Errors.{GoError, sentinel, join, ok, err}
use gframework.Httpclient.Client.{Client, TokenProvider}
use gframework.Httpclient.Request.{
  RequestConfig, RequestOption, Request, Net, build_request_config, build_request,
}
use gframework.Httpclient.Response.{
  go_error, Json, Env, authorize, add_token, received, send_built, send_authorized, do_request,
}

module _ {W V B : Type 0} (env : Env W) (net : Net B) (json : Json V) (c : Client)
    (values : String → Option String) (fresh : String) where
  add_token-err :
      (cfg : RequestConfig) (w : W) {provider : TokenProvider} {e : GoError}
      → c.token_provider ≡ some provider
      → (env.get_token provider w).0 ≡ err e
      → add_token env net json c values fresh cfg w
        ≡ (err (join (sentinel "ErrAuthFailed") e), (env.get_token provider w).1)
  unfolding add_token authorize
  add_token-err cfg w h k = rw (h, k)

  add_token-ok :
      (cfg : RequestConfig) (w : W) {provider : TokenProvider} {token : String}
      → c.token_provider ≡ some provider
      → (env.get_token provider w).0 ≡ ok token
      → add_token env net json c values fresh cfg w ≡ (
        ok (record cfg { headers = insert "Authorization" (append "Bearer " token) cfg.headers }),
        (env.get_token provider w).1,
      )
  unfolding add_token authorize
  add_token-ok cfg w h k = rw (h, k)

  -- When the token provider fails, the client's call ends with ErrAuthFailed and its cause, and
  -- nothing has been sent: the state is the one that the provider left.
  pub do_request_unauthorized :
      (method path : String) (body : Option B) (wanted : Bool) (opts : List RequestOption) (w : W)
      (provider : TokenProvider) (e : GoError)
      → c.token_provider ≡ some provider
      → (env.get_token provider w).0 ≡ err e
      → do_request env net json c values fresh method path body wanted opts w ≡ (
        (some (go_error (join (sentinel "ErrAuthFailed") e)), none),
        (env.get_token provider w).1,
      )
  unfolding do_request send_authorized
  do_request_unauthorized method path body wanted opts w provider e h k =
      rw (add_token-err (build_request_config c values fresh opts) w h k)

  -- When the token provider gives a token and the request can be built, exactly that request is sent,
  -- built with the bearer token among its own headers, and the result is that of its response.
  pub do_request_authorized :
      (method path : String) (body : Option B) (wanted : Bool) (opts : List RequestOption) (w : W)
      (provider : TokenProvider) (token : String) (req : Request)
      → c.token_provider ≡ some provider
      → (env.get_token provider w).0 ≡ ok token
      → let cfg = build_request_config c values fresh opts in
        build_request net c method path body
            (record cfg { headers = insert "Authorization" (append "Bearer " token) cfg.headers })
          ≡ ok req
        → let (resp, w') = env.send req (env.get_token provider w).1 in
          do_request env net json c values fresh method path body wanted opts w
          ≡ (received env net json c values fresh wanted cfg.request_id resp, w')
  unfolding do_request send_authorized send_built
  do_request_authorized method path body wanted opts w provider token req h k b =
      rw (add_token-ok (build_request_config c values fresh opts) w h k, b)
