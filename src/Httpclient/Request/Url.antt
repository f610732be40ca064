-- ===== src/Httpclient/Request/Url.antt =====
-- httpclient/client.go: joining the base URL and the path.
use Prim.Native.Char.{code}
use Prim.Native.String
use gframework.Base.{String, ◌≡◌, refl, ◌≢◌, true, List, [], arith, ap}
use text.Mathlib.TextLemmas.{nil-append, cons-append}
use gframework.Httpclient.Client.{trim_slash, bare_client}
use gframework.Httpclient.Request.{needs_slash, build_url}

trim_slash-append : (b : String) → trim_slash (String.◌++◌ b "/") ≡ b
unfolding trim_slash
trim_slash-append String.[] = refl
trim_slash-append (String.◌∷◌ c String.[]) = rw cons-append refl
trim_slash-append (String.◌∷◌ c (String.◌∷◌ d s)) =
    rw (cons-append, cons-append)
      (ap (λ t. String.◌∷◌ c t) (rw cons-append at (trim_slash-append (String.◌∷◌ d s))))

abbrev pub StartsWithoutSlash : String → Type 0
StartsWithoutSlash String.[] = ⊥
StartsWithoutSlash (String.◌∷◌ c s) = code c ≢ b'/'

needs_slash-StartsWithoutSlash : (p : String) → StartsWithoutSlash p → needs_slash p ≡ true
unfolding needs_slash
needs_slash-StartsWithoutSlash String.[] h = absurd h
needs_slash-StartsWithoutSlash (String.◌∷◌ c s) h = ground arith

-- For a client made with the base URL `b` and a slash, and a path `p` that is not empty and does not
-- start with a slash, the URLs for `p` and for a slash and `p` are both `b`, one slash, and `p`.
pub build_url-slash :
    (encode : List (String × String) → String) (b p : String)
    → StartsWithoutSlash p
    → let c = bare_client (String.◌++◌ b "/") in
      (build_url encode c p [] ≡ String.◌++◌ b (String.◌++◌ "/" p))
      × (build_url encode c (String.◌++◌ "/" p) [] ≡ String.◌++◌ b (String.◌++◌ "/" p))
unfolding build_url bare_client
build_url-slash encode b p h = (
  rw (trim_slash-append b, needs_slash-StartsWithoutSlash p h) refl,
  rw (trim_slash-append b, cons-append, nil-append) refl,
)
