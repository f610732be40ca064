-- ===== src/Httpclient/Registry/Tests.antt =====
-- A registry in use.
use gframework.Base.{◌≡◌, refl, none, List, [], ◌∷◌, pos, lookup, insert, remove}
use gframework.Httpclient.Client.{ClientOption, new, with_timeout, with_http_client}
use gframework.Httpclient.Registry.{new_registry, register, client, unregister, names}
use gframework.Httpclient.Registry.Refinement.{
  Op, put, drop, run, latest, writes, written, client-run,
}

abbrev history : List Op
history = put "users" "http://u/" [] ∷ put "mail" "http://m" [] ∷ drop "mail" ∷ []

-- All clients share the http.Client at address 1.
abbrev defaults : List ClientOption
defaults = with_http_client 1 ∷ with_timeout (pos 7) ∷ []

after_history : names (run history (new_registry defaults)) ≡ "users" ∷ []
unfolding run names register unregister new_registry lookup insert remove
after_history = refl

-- The registration under the second name changes the timeout for the first.
shared_timeout :
    written (with_http_client 1 ∷ []) (
      put "users" "http://u" (with_timeout (pos 7) ∷ [])
      ∷ put "mail" "http://m" (with_timeout (pos 1) ∷ [])
      ∷ [])
    ≡ (1, pos 7) ∷ (1, pos 1) ∷ []
unfolding new with_http_client with_timeout
shared_timeout = refl

client-run_example :
    (client "mail" (run history (new_registry defaults)) ≡ latest defaults "mail" none history)
    × (writes history (new_registry defaults) ≡ written defaults history)
client-run_example = client-run defaults history "mail"
