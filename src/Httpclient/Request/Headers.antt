-- ===== src/Httpclient/Request/Headers.antt =====
-- httpclient/client.go: which headers a request carries.
use gframework.Base.{
  String, ◌≡◌, refl, not, ◌&&◌, Option, none, some, List, [], ◌∷◌, if◌then◌else◌, lookup, insert,
  lookup-insert, str_eq, arith, ap, ◌∙◌, eq_iff,
}
use gframework.Httpclient.Client.{Client}
use gframework.Httpclient.Request.{RequestConfig, set_all, build_headers}

-- The last value that a list of headers gives to the header `j`, or `before` if it gives none.
abbrev pub last_value :
    (String → String) → String → Option String → List (String × String) → Option String
last_value canonical j before [] = before
last_value canonical j before ((k, v) ∷ m) =
    last_value canonical j (if str_eq (canonical k) j then some v else before) m

lookup-set_all :
    (canonical : String → String) (j : String) (header m : List (String × String))
    → lookup j (set_all canonical header m) ≡ last_value canonical j (lookup j header) m
lookup-set_all canonical j header [] = refl
lookup-set_all canonical j header ((k, v) ∷ m) =
    lookup-set_all canonical j (insert (canonical k) v header) m
    ∙ ap (λ b. last_value canonical j b m) (lookup-insert (canonical k) j v header)

lookup-set_all_nil :
    (canonical : String → String) (j : String) (m : List (String × String))
    → lookup j (set_all canonical [] m) ≡ last_value canonical j none m
unfolding lookup
lookup-set_all_nil canonical j m = lookup-set_all canonical j [] m

-- A request carries its request id, if it has one, under the canonical X-Request-ID; any other header
-- has the value that the request's own headers give it last, and else the client's default.
pub lookup-build_headers :
    (canonical : String → String) (c : Client) (cfg : RequestConfig) (j : String)
    → lookup j (build_headers canonical c cfg) ≡ (
        if not (str_eq cfg.request_id "") && str_eq (canonical "X-Request-ID") j
        then some cfg.request_id
        else last_value canonical j (last_value canonical j none c.default_headers) cfg.headers)
unfolding build_headers
lookup-build_headers canonical c cfg j =
    let header = set_all canonical (set_all canonical [] c.default_headers) cfg.headers in
    ground (
      arith,
      lookup-insert (canonical "X-Request-ID") j cfg.request_id header,
      lookup-set_all canonical j (set_all canonical [] c.default_headers) cfg.headers,
      lookup-set_all_nil canonical j c.default_headers,
      eq_iff (canonical "X-Request-ID") j,
      eq_iff cfg.request_id "",
    )
