-- ===== src/Httpclient/Request/Tests.antt =====
-- Requests of a client.
use gframework.Base.{◌≡◌, refl, [], ◌∷◌, pos, insert}
use gframework.Httpclient.Client.{bare_client}
use gframework.Httpclient.Request.{RequestConfig, build_headers}

abbrev plain : RequestConfig
plain = record {
  headers = ("Accept", "text/plain") ∷ ("Content-Type", "text/csv") ∷ [];
  query = [];
  timeout = pos 0;
  request_id = "r1";
}

built :
    build_headers (λ k. k) (bare_client "http://a/") plain
    ≡ ("Content-Type", "text/csv") ∷ ("Accept", "text/plain") ∷ ("X-Request-ID", "r1") ∷ []
unfolding build_headers bare_client insert
built = refl
