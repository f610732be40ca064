-- ===== src/Httpclient/Registry.antt =====
-- httpclient/registry.go: clients by the name of their service. The lock makes each method one step.
pub mod Refinement
pub mod Abstract
mod Tests
use gframework.Base.{
  ℕ, String, ◌≡◌, Bool, true, false, Option, none, some, List, [], ◌∷◌, ◌++◌, lookup, insert,
  remove, keys, is_set, length, if◌then◌else◌,
}
use gframework.Errors
use gframework.Httpclient.Client.{Client, ClientOption, Writes, new}

pub record Registry : Type 0 where
  pub clients : List (String × Client)
  pub default_opts : List ClientOption

pub new_registry : List ClientOption → Registry
new_registry default_opts = record { clients = []; default_opts = default_opts }

-- With the timeouts that the options set on http.Clients of the caller's.
pub register : String → String → List ClientOption → Registry → Registry × Writes
register name base_url opts r =
    let (made, writes) = new base_url (r.default_opts ++ opts) in
    (record r { clients = insert name made r.clients }, writes)

-- `Client` and `MustClient`; a name that is not registered is a panic, here `none`.
pub client : String → Registry → Option Client
client name r = lookup name r.clients

pub must_client : String → Registry → Option Client
unfolding client
must_client name r = client name r

abbrev client_of : Option Client → Option Client × Bool
client_of none = (none, false)
client_of (some c) = (some c, true)

pub get_client : String → Registry → Option Client × Bool
get_client name r = client_of (lookup name r.clients)

pub has : String → Registry → Bool
has name r = is_set (lookup name r.clients)

pub unregister : String → Registry → Bool × Registry
unregister name r =
    let found = is_set (lookup name r.clients) in
    (found, if found then record r { clients = remove name r.clients } else r)

-- In the order of the map.
pub names : Registry → List String
names r = keys r.clients

pub count : Registry → ℕ
count r = length r.clients
