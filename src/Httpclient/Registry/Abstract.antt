-- ===== src/Httpclient/Registry/Abstract.antt =====
-- httpclient/registry.go: registries up to the order of their map, which Go leaves open. A registry holds
-- pointers to http.Clients of the caller's; the timeouts set through them are not part of it.
use mathlib.Core.Quot
use mathlib.Core.Quot.{Quot, Quot-set}
use gframework.Base.{
  String, false, Option, List, [], ◌∷◌, refl, sym, ◌∙◌, ◌≡◌, str_eq, eq_iff, arith,
}
use gframework.Httpclient.Client.{Client, ClientOption}
use gframework.Httpclient.Registry.{Registry, register, unregister, client}
use gframework.Httpclient.Registry.Refinement.{
  Op, put, drop, run, latest, run-latest, default_opts-register, default_opts-unregister,
}

-- The same defaults, and the same client for every name.
abbrev pub SameClients : Registry → Registry → Type 0
SameClients r s =
    (r.default_opts ≡ s.default_opts) × ((name : String) → client name r ≡ client name s)

abbrev pub AnyOrder : Type 0
AnyOrder = Quot SameClients

default_opts-run : (ops : List Op) (r : Registry) → (run ops r).default_opts ≡ r.default_opts
unfolding run
default_opts-run [] r = refl
default_opts-run (put name base_url opts ∷ ops) r =
    default_opts-run ops (register name base_url opts r).0
    ∙ default_opts-register name base_url opts r
default_opts-run (drop name ∷ ops) r =
    default_opts-run ops (unregister name r).1 ∙ default_opts-unregister name r

-- Operations that have the same last word on each name, whatever was there before.
abbrev pub SameLatest : List Op → List Op → Type 0
SameLatest ops ops' =
    (defaults : List ClientOption) (name : String) (before : Option Client)
    → latest defaults name before ops ≡ latest defaults name before ops'

run-SameClients :
    (ops ops' : List Op) (r s : Registry)
    → SameLatest ops ops'
    → SameClients r s
    → SameClients (run ops r) (run ops' s)
run-SameClients ops ops' r s same h = (
  default_opts-run ops r ∙ (h.0 ∙ sym (default_opts-run ops' s)),
  λ j.
      run-latest ops j r
      ∙ ((λ i. latest (h.0 i) j (h.1 j i) ops)
          ∙ (same s.default_opts j (client j s) ∙ sym (run-latest ops' j s))),
)

-- A sequence of `Register` and `Unregister` on registries up to order.
pub run_on : List Op → AnyOrder → AnyOrder
run_on ops =
    Quot.lift Quot-set (λ r. Quot.mk (run ops r))
      (λ r s h. Quot.sound (run-SameClients ops ops r s (λ d j b. refl) h))

-- The operations act on registries up to the order of their map. Two sequences of registrations and
-- removals that agree, for every name, on what the last of them says of it give the same registry.
pub run_on-SameLatest :
    (ops ops' : List Op) → SameLatest ops ops' → (q : AnyOrder) → run_on ops q ≡ run_on ops' q
unfolding run_on
run_on-SameLatest ops ops' same =
    Quot.ind (λ q. Quot-set _ _)
      (λ r. Quot.sound (run-SameClients ops ops' r r same (refl, λ j. refl)))

-- Under different names registrations and removals commute; under one name a registration replaces
-- an earlier one, a removal undoes it, and a registration makes an earlier removal vain.
pub run_on-laws :
    (name other url other_url : String) (opts other_opts : List ClientOption) (q : AnyOrder)
    → str_eq name other ≡ false
    → let reg = put name url opts in
      let reg_other = put other other_url other_opts in
      (run_on (reg ∷ reg_other ∷ []) q ≡ run_on (reg_other ∷ reg ∷ []) q)
      × (run_on (reg ∷ drop other ∷ []) q ≡ run_on (drop other ∷ reg ∷ []) q)
      × (run_on (drop name ∷ drop other ∷ []) q ≡ run_on (drop other ∷ drop name ∷ []) q)
      × (run_on (put name other_url other_opts ∷ reg ∷ []) q ≡ run_on (reg ∷ []) q)
      × (run_on (reg ∷ drop name ∷ []) q ≡ run_on (drop name ∷ []) q)
      × (run_on (drop name ∷ reg ∷ []) q ≡ run_on (reg ∷ []) q)
run_on-laws name other url other_url opts other_opts q apart = (
  run_on-SameLatest _ _ (λ d j b. ground (arith, eq_iff name j, eq_iff other j, eq_iff name other))
      q,
  run_on-SameLatest _ _ (λ d j b. ground (arith, eq_iff name j, eq_iff other j, eq_iff name other))
      q,
  run_on-SameLatest _ _ (λ d j b. ground arith) q,
  run_on-SameLatest _ _ (λ d j b. ground arith) q,
  run_on-SameLatest _ _ (λ d j b. ground arith) q,
  run_on-SameLatest _ _ (λ d j b. ground arith) q,
)
