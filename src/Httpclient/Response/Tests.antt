-- ===== src/Httpclient/Response/Tests.antt =====
-- Responses to a client.
use gframework.Base.{arith, ℕ, ◌+◌, String, ◌≡◌, ◌↔◌, true, none, some, [], ◌∷◌, pos, length}
use gframework.Errors.{sentinel, ok, err}
use gframework.Httpclient.Client.{Client, given, bare_client}
use gframework.Httpclient.Request.{Request, Net}
use gframework.Httpclient.Response.{
  Bytes, Response, Json, Env, is_success, handle_response, limit_of,
}
use gframework.Httpclient.Response.Limits.{Fits, handle_response-value_iff}

-- A value is the number of bytes.
abbrev sizes : Json ℕ
sizes = record { error_response = λ b. none; unmarshal = λ b. ok (length b); text = λ b. "?" }

abbrev small : Client
small = record (bare_client "http://a") {
  max_response_size = pos 2;
  token_provider = some (given "t");
}

abbrev reply : Bytes → Response
reply bytes = record {
  status_code = 200;
  request_id = "";
  body = record { bytes = bytes; failure = none };
}

abbrev three : Bytes
three = 7 ∷ 8 ∷ 9 ∷ []

handle_response-value_iff_example :
    (handle_response sizes small true (reply (7 ∷ 8 ∷ [])) "r1" ≡ (none, some 2)) ↔ (
      (is_success 200 ≡ true)
      × Fits (limit_of sizes (pos 2)) (reply (7 ∷ 8 ∷ [])).body
      × ((reply (7 ∷ 8 ∷ [])).body.failure ≡ none)
      × (sizes.unmarshal (7 ∷ 8 ∷ []) ≡ ok 2))
handle_response-value_iff_example =
    handle_response-value_iff sizes small (reply (7 ∷ 8 ∷ [])) "r1" 2 (omega arith)

-- The state counts the requests sent.
abbrev refusing : Env ℕ
refusing = record {
  get_token = λ p w. (err (sentinel "ErrNoAccessToken"), w);
  send = λ r w. (ok (reply []), w + 1);
}

abbrev granting : Env ℕ
granting = record refusing { get_token = λ p w. (ok "abc", w) }

abbrev plain_net : Net String
plain_net = record {
  canonical = λ k. k;
  encode = λ q. "";
  marshal = λ b. ok b;
  check_request = λ m u. none;
}

abbrev sent : Request
sent = record {
  method = "GET";
  url = "http://a/x";
  headers =
      ("Content-Type", "application/json")
      ∷ ("Authorization", "Bearer abc")
      ∷ ("X-Request-ID", "r1")
      ∷ [];
  body = none;
}
