-- ===== src/Keycloak/Uma.antt =====
-- keycloak/uma.go: the decision on one permission; and keycloak/helpers.go.
pub mod Decision
mod Tests
use Prim.Native.String
use gframework.Base.{
  ℕ, String, Bool, true, false, ◌||◌, ◌==◌, Option, none, some, List, [], ◌∷◌, str_eq,
  if◌then◌else◌,
}
use gframework.Errors.{GoError, sentinel, wrap, join, Result, ok, err}

pub record UmaClient : Type 0 where
  pub token_endpoint : String
  pub audience : String

-- A POST request with a form and its headers.
pub record UmaRequest : Type 0 where
  pub url : String
  pub form : List (String × String)
  pub content_type : String
  pub authorization : String

-- The body is read only for a status that is not expected; reading may fail.
pub record UmaResponse : Type 0 where
  pub status : ℕ
  pub body : Result String

-- The request whose URL net/http refuses, and the answer to one that it sends.
pub record Http (W : Type 0) : Type 0 where
  pub bad_url : String → Option GoError
  pub perform : UmaRequest → W → Result UmaResponse × W

abbrev pub invalid_response : String
invalid_response = "ErrUMAResponseInvalid"

pub unexpected_status : UmaResponse → GoError
unexpected_status resp = elim resp.body [
  | err e ↦ join (sentinel invalid_response) e
  | ok text ↦ wrap text (sentinel invalid_response)
]

pub decision : UmaResponse → Result Bool
decision resp =
    if resp.status == 200
    then ok true
    else if resp.status == 403
    then ok false
    else err (unexpected_status resp)

module _ {W : Type 0} (http : Http W) (c : UmaClient) where
  pub uma_request : String → String → String → UmaRequest
  uma_request user_token resource scope = record {
    url = c.token_endpoint;
    form =
        ("grant_type", "urn:ietf:params:oauth:grant-type:uma-ticket")
        ∷ (("audience", c.audience)
            ∷ (("permission", String.◌++◌ resource (String.◌++◌ "#" scope))
                ∷ (("response_mode", "decision") ∷ [])));
    content_type = "application/x-www-form-urlencoded";
    authorization = String.◌++◌ "Bearer " user_token;
  }

  answered : Result UmaResponse × W → Result Bool × W
  answered (err e, w) = (err (join (sentinel "ErrUMARequestFailed") e), w)
  answered (ok resp, w) = (decision resp, w)

  send : Option GoError → UmaRequest → W → Result Bool × W
  send (some e) req w = (err (join (wrap "build request" (sentinel "ErrUMARequestFailed")) e), w)
  send none req w = answered (http.perform req w)

  pub check : String → String → String → W → Result Bool × W
  check user_token resource scope w =
      if str_eq user_token "" || (str_eq resource "" || str_eq scope "")
      then (err (wrap "Check requires" (sentinel "ErrInvalidInput")), w)
      else send (http.bad_url c.token_endpoint) (uma_request user_token resource scope) w

-- Roles without a name, and missing ones, are left out.
pub role_names : List (Option (Option String)) → List String
role_names [] = []
role_names (none ∷ roles) = role_names roles
role_names (some none ∷ roles) = role_names roles
role_names (some (some name) ∷ roles) = name ∷ role_names roles
