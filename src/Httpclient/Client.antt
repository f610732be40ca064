-- ===== src/Httpclient/Client.antt =====
-- httpclient/client.go and httpclient/options.go: the client and its options.
use Prim.Native.Char.{code}
use gframework.Base.{
  ℕ, ◌++◌, String, Option, none, some, List, [], ◌∷◌, ℤ, pos, ◌==◌, if◌then◌else◌, copy, insert,
}

pub record AuthConfig : Type 0 where
  pub client_id : String
  pub client_secret : String
  pub base_url : String
  pub realm : String
  pub expiry_buffer : ℤ

-- The TokenProvider: one that `WithAuth` makes from its configuration, or a given one, by a name.
pub data TokenProvider : Type 0 where
  auth_token : AuthConfig → TokenProvider
  given : String → TokenProvider

-- The Doer: the *http.Client that `New` made for this client alone, with its timeout; an *http.Client of
-- the caller's, which other clients may share, by its address; or another implementation.
pub data Doer : Type 0 where
  own : ℤ → Doer
  shared : ℕ → Doer
  other_doer : Doer

pub record Client : Type 0 where
  pub base_url : String
  pub doer : Doer
  pub request_id_key : Option String
  pub default_headers : List (String × String)
  pub auth_config : Option AuthConfig
  pub token_provider : Option TokenProvider
  pub max_response_size : ℤ

-- The timeouts that are set on http.Clients of the caller's, by address, oldest first.
abbrev pub Writes : Type 0
Writes = List (ℕ × ℤ)

-- An option changes the client, and may write through its pointer to an http.Client.
abbrev pub ClientOption : Type 0
ClientOption = Client → Client × Writes

-- strings.TrimSuffix(s, "/")
unfoldable pub trim_slash : String → String
trim_slash String.[] = String.[]
trim_slash (String.◌∷◌ c String.[]) = if code c == b'/' then String.[] else String.◌∷◌ c String.[]
trim_slash (String.◌∷◌ c (String.◌∷◌ d s)) = String.◌∷◌ c (trim_slash (String.◌∷◌ d s))

abbrev pub apply_options : List ClientOption → Client → Client × Writes
apply_options [] c = (c, [])
apply_options (o ∷ os) c =
    let (c1, first) = o c in let (c2, rest) = apply_options os c1 in (c2, first ++ rest)

-- The client before its options.
unfoldable pub bare_client : String → Client
unfolding trim_slash
bare_client base_url = record {
  base_url = trim_slash base_url;
  doer = own (pos 30_000_000_000);
  request_id_key = none;
  default_headers = ("Content-Type", "application/json") ∷ [];
  auth_config = none;
  token_provider = none;
  max_response_size = pos 0;
}

unfoldable pub new : String → List ClientOption → Client × Writes
unfolding bare_client
new base_url opts = apply_options opts (bare_client base_url)

abbrev set_timeout : ℤ → Doer → Doer × Writes
set_timeout timeout (own t) = (own timeout, [])
set_timeout timeout (shared address) = (shared address, (address, timeout) ∷ [])
set_timeout timeout other_doer = (other_doer, [])

unfoldable pub with_timeout : ℤ → ClientOption
with_timeout timeout c =
    let (d, writes) = set_timeout timeout c.doer in (record c { doer = d }, writes)

-- For a pointer that is not nil.
unfoldable pub with_http_client : ℕ → ClientOption
with_http_client address c = (record c { doer = shared address }, [])

pub with_request_id_key : String → ClientOption
with_request_id_key key c = (record c { request_id_key = some key }, [])

unfoldable pub with_default_headers : List (String × String) → ClientOption
unfolding insert
with_default_headers headers c = (record c { default_headers = copy c.default_headers headers }, [])

pub with_auth : AuthConfig → ClientOption
with_auth cfg c = (record c { auth_config = some cfg; token_provider = some (auth_token cfg) }, [])

unfoldable pub with_token_provider : TokenProvider → ClientOption
with_token_provider provider c = (record c { token_provider = some provider }, [])

pub with_max_response_size : ℤ → ClientOption
with_max_response_size size c = (record c { max_response_size = size }, [])
