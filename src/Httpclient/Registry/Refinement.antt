-- ===== src/Httpclient/Registry/Refinement.antt =====
-- httpclient/registry.go: a registry is a finite map from names to clients.
use gframework.Base.{
  suc, ◌-◌, String, ◌≡◌, refl, Option, none, some, List, [], ◌∷◌, ◌++◌, lookup, if◌then◌else◌,
  str_eq, eq_iff, arith, Distinct, lookup-insert, lookup-remove, insert-Distinct, remove-Distinct,
  length-insert, length-remove, ap, ◌∙◌,
}
use gframework.Httpclient.Client.{Client, ClientOption, Writes, new}
use gframework.Httpclient.Registry.{
  Registry, new_registry, register, client, has, unregister, count,
}

-- The operations that change a registry.
pub data Op : Type 0 where
  put : String → String → List ClientOption → Op
  drop : String → Op

unfoldable pub run : List Op → Registry → Registry
run [] r = r
run (put name base_url opts ∷ ops) r = run ops (register name base_url opts r).0
run (drop name ∷ ops) r = run ops (unregister name r).1

-- What was last said of a name, by a list of operations that begins with `before`.
abbrev pub latest : List ClientOption → String → Option Client → List Op → Option Client
latest defaults j before [] = before
latest defaults j before (put name base_url opts ∷ ops) =
    latest defaults j (if str_eq name j then some (new base_url (defaults ++ opts)).0 else before)
      ops
latest defaults j before (drop name ∷ ops) =
    latest defaults j (if str_eq name j then none else before) ops

client-register :
    (name j base_url : String) (opts : List ClientOption) (r : Registry)
    → client j (register name base_url opts r).0
      ≡ (if str_eq name j then some (new base_url (r.default_opts ++ opts)).0 else client j r)
unfolding client register
client-register name j base_url opts r = lookup-insert name j _ r.clients

client-unregister :
    (name j : String) (r : Registry)
    → client j (unregister name r).1 ≡ (if str_eq name j then none else client j r)
unfolding client unregister
client-unregister name j r = ground (arith, lookup-remove name j r.clients, eq_iff name j)

pub default_opts-unregister :
    (name : String) (r : Registry) → (unregister name r).1.default_opts ≡ r.default_opts
unfolding unregister
default_opts-unregister name r = ground arith

pub default_opts-register :
    (name base_url : String) (opts : List ClientOption) (r : Registry)
    → (register name base_url opts r).0.default_opts ≡ r.default_opts
unfolding register
default_opts-register name base_url opts r = refl

pub run-latest :
    (ops : List Op) (j : String) (r : Registry)
    → client j (run ops r) ≡ latest r.default_opts j (client j r) ops
unfolding run
run-latest [] j r = refl
run-latest (put name base_url opts ∷ ops) j r =
    run-latest ops j (register name base_url opts r).0 ∙ (λ i.
      latest (default_opts-register name base_url opts r i) j
        (client-register name j base_url opts r i) ops)
run-latest (drop name ∷ ops) j r =
    run-latest ops j (unregister name r).1
    ∙ (λ i. latest (default_opts-unregister name r i) j (client-unregister name j r i) ops)

-- The timeouts that a sequence of operations sets on http.Clients of the caller's.
pub writes : List Op → Registry → Writes
writes [] r = []
writes (put name base_url opts ∷ ops) r =
    let (s, first) = register name base_url opts r in first ++ writes ops s
writes (drop name ∷ ops) r = writes ops (unregister name r).1

-- The same, by the registrations alone.
abbrev pub written : List ClientOption → List Op → Writes
written defaults [] = []
written defaults (put name base_url opts ∷ ops) =
    (new base_url (defaults ++ opts)).1 ++ written defaults ops
written defaults (drop name ∷ ops) = written defaults ops

writes-written : (ops : List Op) (r : Registry) → writes ops r ≡ written r.default_opts ops
unfolding writes register
writes-written [] r = refl
writes-written (put name base_url opts ∷ ops) r =
    ap (λ rest. (new base_url (r.default_opts ++ opts)).1 ++ rest)
      (writes-written ops (register name base_url opts r).0)
writes-written (drop name ∷ ops) r =
    writes-written ops (unregister name r).1
    ∙ ap (λ defaults. written defaults ops) (default_opts-unregister name r)

-- After any sequence of registrations and removals, `Client` gives for each name the client that the
-- last registration since its last removal made, from the defaults and its own options, and panics
-- if there is none. In that client an http.Client of the caller's is a pointer: the timeouts that were set
-- through such pointers are, in order, those of all registrations, whatever their names.
pub client-run :
    (defaults : List ClientOption) (ops : List Op) (j : String)
    → (client j (run ops (new_registry defaults)) ≡ latest defaults j none ops)
      × (writes ops (new_registry defaults) ≡ written defaults ops)
unfolding new_registry
client-run defaults ops j = (
  run-latest ops j (new_registry defaults)
      ∙ ap (λ c. latest defaults j c ops) (unfold client lookup in refl),
  writes-written ops (new_registry defaults),
)

-- A registry has one entry for a name.
abbrev pub IsMap : Registry → Type 0
IsMap r = Distinct r.clients

pub run-IsMap : (ops : List Op) (r : Registry) → IsMap r → IsMap (run ops r)
unfolding run register unregister
run-IsMap [] r h = h
run-IsMap (put name base_url opts ∷ ops) r h =
    run-IsMap ops (register name base_url opts r).0 (insert-Distinct name _ r.clients h)
run-IsMap (drop name ∷ ops) r h =
    run-IsMap ops (unregister name r).1 (ground (arith, h, remove-Distinct name r.clients h))

-- In a registry that operations have made, `Register` raises `Count` by one exactly if the name was
-- not registered; `Unregister` reports whether it was, lowers `Count` by one in that case, and
-- otherwise changes nothing.
pub count_steps :
    (defaults : List ClientOption) (ops : List Op) (name base_url : String)
    (opts : List ClientOption)
    → let r = run ops (new_registry defaults) in
      let (found, s) = unregister name r in
      (count (register name base_url opts r).0 ≡ (if has name r then count r else suc (count r)))
      × (found ≡ has name r)
      × (count s ≡ (if has name r then count r - 1 else count r))
unfolding count register unregister has
count_steps defaults ops name base_url opts =
    let r = run ops (new_registry defaults) in
    (
      length-insert name _ r.clients,
      refl,
      ground (
        arith,
        length-remove name r.clients
            (run-IsMap ops (new_registry defaults) (unfold new_registry in tt)),
      ),
    )
