-- ===== src/Middleware/Claims/Access.antt =====
-- middleware/role.go: who gets through.
use gframework.Base.{
  String, ◌≡◌, ◌≢◌, refl, ◌↔◌, ◌⊎◌, inl, inr, true, List, [], ◌∷◌, contains, eq_iff, arith,
}
use gframework.Errors.{GoError, sentinel, Result, ok, err}
use gframework.Middleware.Claims.{
  ExtendedClaims, Context, has_realm_role, get_extended_claims_from_context, http_error, passed,
  any_role, require_any_realm_role,
}

abbrev pub Holds : String → List String → Type 0
Holds x [] = ⊥
Holds x (y ∷ ys) = (y ≡ x) ⊎ Holds x ys

-- Some role is in both lists.
abbrev pub Shares : List String → List String → Type 0
Shares [] held = ⊥
Shares (r ∷ roles) held = Holds r held ⊎ Shares roles held

contains-Holds : (xs : List String) (x : String) → (contains xs x ≡ true) ↔ Holds x xs
contains-Holds [] x = ground arith
contains-Holds (y ∷ xs) x = ground (arith, contains-Holds xs x, eq_iff y x)

pub any_role-Shares :
    (c : ExtendedClaims) (roles : List String)
    → (any_role c roles ≡ true) ↔ Shares roles c.realm_access
unfolding has_realm_role
any_role-Shares c [] = ground arith
any_role-Shares c (r ∷ roles) =
    ground (arith, any_role-Shares c roles, contains-Holds c.realm_access r)

result-cases :
    (ctx : Context)
    → ((e : GoError) × (get_extended_claims_from_context ctx ≡ err e))
      ⊎ ((c : ExtendedClaims) × (get_extended_claims_from_context ctx ≡ ok c))
result-cases ctx = split (get_extended_claims_from_context ctx)
  where
    split :
        (r : Result ExtendedClaims)
        → ((e : GoError) × (r ≡ err e)) ⊎ ((c : ExtendedClaims) × (r ≡ ok c))
    split (err e) = inl (e, refl)
    split (ok c) = inr (c, refl)

-- The middleware for a list of realm roles lets a request through, with the next handler's result,
-- exactly when the context has claims and one of the listed roles is among their realm roles. It
-- answers 500 exactly when the list is empty, else 401 exactly when the context has no claims (or a
-- value of another type under their key), else 403.
pub require_any_realm_role-passed_iff :
    {A : Type 0} (roles : List String) (next : Context → A) (ctx : Context)
    → let r = require_any_realm_role roles next ctx in
      ((r ≡ passed (next ctx)) ↔ (
        (c : ExtendedClaims) × (get_extended_claims_from_context ctx ≡ ok c)
        × Shares roles c.realm_access))
      × ((r ≡ http_error 500 (sentinel "ErrRealmRolesEmpty")) ↔ (roles ≡ []))
      × (((e : GoError) × (r ≡ http_error 401 e))
          ↔ ((roles ≢ []) × ((e : GoError) × (get_extended_claims_from_context ctx ≡ err e))))
unfolding require_any_realm_role
require_any_realm_role-passed_iff [] next ctx = ground arith
require_any_realm_role-passed_iff (r ∷ roles) next ctx = elim (result-cases ctx) [
  | inl (e, missing) ↦ (
    (λ p. absurd (ground (arith, missing)), ground (arith, missing)),
    ground (arith, missing),
    ((λ q. (ground arith, (e, missing))), λ q. (e, ground (arith, missing))),
  )
  | inr (c, found) ↦ (
    (
      (λ p. (c, found, ground (arith, found, any_role-Shares c (r ∷ roles)))),
      λ (c', found', s). ground (arith, found, any_role-Shares c' (r ∷ roles)),
    ),
    ground (arith, found),
    ((λ (e, q). absurd (ground (arith, found))), λ (n, (e, q)). absurd (ground arith)),
  )
]
