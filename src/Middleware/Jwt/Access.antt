-- ===== src/Middleware/Jwt/Access.antt =====
-- middleware/jwt.go with middleware/role.go: an endpoint behind both.
use gframework.Base.{
  String, ◌≡◌, refl, ◌⊎◌, inl, inr, Bool-cases, false, none, some, List, ◌∷◌, str_eq, arith,
}
use gframework.Errors.{GoError, sentinel, err}
use gframework.Middleware.Claims.{
  ExtendedClaims, TokenClaims, extended, foreign_claims, Token, text, token, claims, Context, set,
  Reply, http_error, passed, any_role, require_any_realm_role, get_extended_claims_from_context,
}
use gframework.Middleware.Claims.Access.{Shares, any_role-Shares}
use gframework.Middleware.Jwt.{
  JwtConfig, EchoJwt, build_jwt_config, create_success_handler, create_error_handler, with_claims,
  skipper_or_default, context_key_or_default, jwt_with_config,
}

module _ {A : Type 0} (lib : EchoJwt A) (config : JwtConfig) (role : String) (roles : List String)
    (next : Context → A) where
  unfoldable pub guarded : Context → Reply A
  guarded = jwt_with_config lib.with_config config (require_any_realm_role (role ∷ roles) next)

  -- How a request goes.
  pub data Guarded (ctx : Context) : Reply A → Type 0 where
    refused :
        (message : String) (e : GoError)
        → lib.verify (build_jwt_config config) ctx ≡ inl message
        → (e ≡ sentinel "ErrTokenRequired") ⊎ (e ≡ sentinel "ErrInvalidToken")
        → Guarded ctx (http_error 401 e)
    claimless :
        (t : Token)
        → lib.verify (build_jwt_config config) ctx ≡ inr t
        → t.token_claims ≡ foreign_claims
        → Guarded ctx (http_error 401 (sentinel "ErrClaimsNotFound"))
    roleless :
        (t : Token) (c : ExtendedClaims)
        → lib.verify (build_jwt_config config) ctx ≡ inr t
        → t.token_claims ≡ extended c
        → ¬ Shares (role ∷ roles) c.realm_access
        → Guarded ctx (http_error 403 (sentinel "ErrRealmRoleForbidden"))
    admitted :
        (t : Token) (c : ExtendedClaims) (after : Context)
        → lib.verify (build_jwt_config config) ctx ≡ inr t
        → t.token_claims ≡ extended c
        → Shares (role ∷ roles) c.realm_access
        → after.values "claims" ≡ some (claims c)
        → after.values "token" ≡ some (text t.raw)
        → Guarded ctx (passed (next after))

  error_handler-cases :
      (message : String)
      → (create_error_handler message ≡ (401, sentinel "ErrTokenRequired"))
        ⊎ (create_error_handler message ≡ (401, sentinel "ErrInvalidToken"))
  unfolding create_error_handler
  error_handler-cases message =
      elim (Bool-cases (str_eq message "missing value in request header")) [
        | inl missing ↦ inl (rw missing refl)
        | inr other ↦ inr (rw other refl)
      ]

  refused-Guarded :
      (ctx : Context) (message : String)
      → lib.verify (build_jwt_config config) ctx ≡ inl message
      → skipper_or_default config.skipper ctx ≡ false
      → Guarded ctx (guarded ctx)
  unfolding guarded jwt_with_config build_jwt_config
  refused-Guarded ctx message wrong on =
      rw
        (
          on,
          lib.refuses (build_jwt_config config) (require_any_realm_role (role ∷ roles) next) ctx
              message wrong,
        )
        (elim (error_handler-cases message) [
          | inl e ↦ rw e (refused message _ wrong (inl refl))
          | inr e ↦ rw e (refused message _ wrong (inr refl))
        ])

  -- The context in which the next handler runs.
  after_token : Token → Context → Context
  after_token t ctx =
      with_claims t.token_claims (set "token" (text t.raw) (set "user" (token t) ctx))

  success_handler-token :
      (t : Token) (ctx : Context)
      → context_key_or_default config.context_key ≡ "user"
      → (build_jwt_config config).success_handler
          (set (build_jwt_config config).context_key (token t) ctx)
        ≡ (none, after_token t ctx)
  unfolding build_jwt_config create_success_handler set after_token
  success_handler-token t ctx key = rw key refl

  role-Guarded :
      (ctx : Context) (t : Token)
      → lib.verify (build_jwt_config config) ctx ≡ inr t
      → (tc : TokenClaims) → t.token_claims ≡ tc
      → ctx.values "claims" ≡ none
      → Guarded ctx (require_any_realm_role (role ∷ roles) next (after_token t ctx))
  unfolding require_any_realm_role get_extended_claims_from_context after_token set
  role-Guarded ctx t good foreign_claims is fresh = rw (is, fresh) (claimless t good is)
  role-Guarded ctx t good (extended c) is fresh =
      rw is (elim (Bool-cases (any_role c (role ∷ roles))) [
        | inl shared ↦
            rw shared
              (admitted t c _ good is ((any_role-Shares c (role ∷ roles)).0 shared) refl refl)
        | inr alien ↦ rw alien (
            roleless t c good is
              λ s. absurd (ground (arith, alien, (any_role-Shares c (role ∷ roles)).1 s)))
      ])

  accepted-Guarded :
      (ctx : Context) (t : Token)
      → lib.verify (build_jwt_config config) ctx ≡ inr t
      → skipper_or_default config.skipper ctx ≡ false
      → context_key_or_default config.context_key ≡ "user"
      → ctx.values "claims" ≡ none
      → Guarded ctx (guarded ctx)
  unfolding guarded jwt_with_config
  accepted-Guarded ctx t good on key fresh =
      rw
        (
          on,
          lib.accepts (build_jwt_config config) (require_any_realm_role (role ∷ roles) next) ctx
              (after_token t ctx) t good (success_handler-token t ctx key),
        )
        (role-Guarded ctx t good t.token_claims refl fresh)

  verified-Guarded :
      (ctx : Context) (v : String ⊎ Token)
      → lib.verify (build_jwt_config config) ctx ≡ v
      → skipper_or_default config.skipper ctx ≡ false
      → context_key_or_default config.context_key ≡ "user"
      → ctx.values "claims" ≡ none
      → Guarded ctx (guarded ctx)
  verified-Guarded ctx (inl message) v on key fresh = refused-Guarded ctx message v on
  verified-Guarded ctx (inr t) v on key fresh = accepted-Guarded ctx t v on key fresh

  -- A request that the JWT middleware does not skip, under the context key "user" and without claims
  -- from before, reaches the handler behind a check for at least one realm role exactly when its token is
  -- verified, the token's claims are the package's own, and they hold one of the roles; the handler then
  -- finds these claims and the raw token in its context. Without a verified token the answer is 401 with
  -- one of the package's two errors, with claims of another type 401, and without a role 403.
  pub jwt_then_role-Guarded :
      (ctx : Context)
      → skipper_or_default config.skipper ctx ≡ false
      → context_key_or_default config.context_key ≡ "user"
      → ctx.values "claims" ≡ none
      → Guarded ctx (guarded ctx)
  jwt_then_role-Guarded ctx on key fresh =
      verified-Guarded ctx (lib.verify (build_jwt_config config) ctx) refl on key fresh

  success_handler-other_key :
      (t : Token) (ctx : Context)
      → str_eq (context_key_or_default config.context_key) "user" ≡ false
      → ctx.values "user" ≡ none
      → (build_jwt_config config).success_handler
          (set (build_jwt_config config).context_key (token t) ctx)
        ≡ (none, set (build_jwt_config config).context_key (token t) ctx)
  unfolding build_jwt_config create_success_handler set
  success_handler-other_key t ctx other no_user = rw (other, no_user) refl

  no_claims :
      (ctx : Context)
      → ctx.values "claims" ≡ none
      → get_extended_claims_from_context ctx ≡ err (sentinel "ErrClaimsNotFound")
  unfolding get_extended_claims_from_context
  no_claims ctx fresh = rw fresh refl

  still_no_claims :
      (t : Token) (ctx : Context) (key : String)
      → str_eq key "claims" ≡ false
      → ctx.values "claims" ≡ none
      → (set key (token t) ctx).values "claims" ≡ none
  unfolding set
  still_no_claims t ctx key plain fresh = rw (plain, fresh) refl

  claimless-refused :
      (ctx : Context)
      → ctx.values "claims" ≡ none
      → require_any_realm_role (role ∷ roles) next ctx
        ≡ http_error 401 (sentinel "ErrClaimsNotFound")
  unfolding require_any_realm_role
  claimless-refused ctx fresh = rw (no_claims ctx fresh, require_any_realm_role) refl

  -- Under a context key other than "user" and "claims", and with nothing stored under these two, a
  -- verified token leaves no claims: the role check refuses every request with 401.
  pub jwt_then_role-other_key :
      (ctx : Context) (t : Token)
      → lib.verify (build_jwt_config config) ctx ≡ inr t
      → skipper_or_default config.skipper ctx ≡ false
      → str_eq (context_key_or_default config.context_key) "user" ≡ false
      → str_eq (context_key_or_default config.context_key) "claims" ≡ false
      → ctx.values "user" ≡ none
      → ctx.values "claims" ≡ none
      → guarded ctx ≡ http_error 401 (sentinel "ErrClaimsNotFound")
  unfolding guarded jwt_with_config build_jwt_config
  jwt_then_role-other_key ctx t good on other plain no_user fresh =
      let cfg = build_jwt_config config in
      let left = success_handler-other_key t ctx other no_user in
      rw
        (
          on,
          lib.accepts cfg (require_any_realm_role (role ∷ roles) next) ctx
              (set cfg.context_key (token t) ctx) t good left,
        )
        (claimless-refused (set cfg.context_key (token t) ctx)
          (still_no_claims t ctx cfg.context_key plain fresh))
