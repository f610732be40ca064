-- ===== src/Keycloak/Admin/Guarded.antt =====
-- keycloak/admin.go: arguments are checked first, then there is a token, then at most two calls.
use gframework.Base.{
  String, ◌≡◌, refl, Bool, true, false, not, ◌&&◌, Option, some, List, ◌∷◌, ℤ, pos, ltb_ℤ, leb_ℤ,
  Bool-cases, inl, inr,
}
use gframework.Errors.{GoError, sentinel, wrap, is, Result, ok, err}
use gframework.Keycloak.Admin.{
  CreateUserParams, UpdateUserParams, Call, set_password, created_user, got_role, added_role,
  removed_role, new_user, Sent, sent, Session, Gocloak, is_set, is_empty, send, on_token, checked,
  create_failed, after_create, create_user, update_user, set_enabled, get_user, list_users,
  user_roles, with_role, apply_role, add_role, remove_role, roles, send_actions_email,
}

-- One or two calls with the same token after those in `log`.
pub data Calls {W : Type 0} (token : String) (log : List Sent) : Session W → Type 0 where
  one : (c : Call) (w : W) → Calls token log (record { world = w; log = sent token c ∷ log })
  two :
      (c d : Call) (w : W)
      → Calls token log (record { world = w; log = sent token d ∷ (sent token c ∷ log) })

module _ {W U R : Type 0} (api : Gocloak W U R) where
  -- How an operation may go from `s`; `valid` is what its arguments must satisfy.
  pub data Guarded {A : Type 0} (failed : GoError → A) (valid : Bool) (s : Session W)
      : A × Session W → Type 0 where
    refused :
        (e : GoError)
        → valid ≡ false
        → is e "ErrInvalidInput" ≡ true
        → Guarded failed valid s (failed e, s)
    without_token :
        (e : GoError) (w : W)
        → valid ≡ true
        → api.token s.world ≡ (err e, w)
        → Guarded failed valid s (failed e, record s { world = w })
    called :
        (token : String) (w : W) (a : A) (t : Session W)
        → valid ≡ true
        → api.token s.world ≡ (ok token, w)
        → Calls token s.log t
        → Guarded failed valid s (a, t)

  on_token-Guarded :
      {A : Type 0}
      → (failed : GoError → A) (body : String → Session W → A × Session W)
      → ((token : String) (s : Session W) → Calls token s.log (body token s).1)
      → (s : Session W) (answer : Result String × W) → api.token s.world ≡ answer
      → Guarded failed true s (on_token api failed body answer s)
  unfolding on_token
  on_token-Guarded failed body calls s (err e, w) asked = without_token e w refl asked
  on_token-Guarded failed body calls s (ok token, w) asked =
      called token w (body token (record s { world = w })).0 (body token (record s { world = w })).1
        refl asked (calls token (record s { world = w }))

  checked-Guarded :
      {A : Type 0}
      → (failed : GoError → A) (valid : Bool) (body : String → Session W → A × Session W)
      → ((token : String) (s : Session W) → Calls token s.log (body token s).1)
      → (s : Session W) → Guarded failed valid s (checked api failed valid body s)
  unfolding checked is
  checked-Guarded failed true body calls s =
      on_token-Guarded failed body calls s (api.token s.world) refl
  checked-Guarded failed false body calls s =
      refused (wrap "requires" (sentinel "ErrInvalidInput")) refl refl

  send-Calls :
      {A : Type 0}
      → (c : Call) (f : String → W → A × W) (token : String) (s : Session W)
      → Calls token s.log (send api token c (f token) s).1
  unfolding send
  send-Calls c f token s = one c (f token s.world).1

  after_create-Calls :
      (token password : String) (c : Call) (answer : Result String) (w : W) (log : List Sent)
      → Calls token log
          (after_create api token password
            (answer, record { world = w; log = sent token c ∷ log })).1
  unfolding after_create send
  after_create-Calls token password c (err e) w log = one c w
  after_create-Calls token password c (ok id) w log = elim (Bool-cases (is_set password)) [
    | inl given ↦
        rw given (two c (set_password id password) (api.set_password token id password w).1)
    | inr missing ↦ rw missing (one c w)
  ]

  with_role-Calls :
      (token : String) (c d : Call) (apply : R → W → Option GoError × W) (answer : Result R) (w : W)
      (log : List Sent)
      → Calls token log
          (with_role api
            (λ role. send api token d (apply role))
            (answer, record { world = w; log = sent token c ∷ log })).1
  unfolding with_role send
  with_role-Calls token c d apply (err e) w log = one c w
  with_role-Calls token c d apply (ok role) w log = two c d (apply role w).1

  create_user-Guarded :
      (params : CreateUserParams) (s : Session W)
      → Guarded
          (create_failed api)
          (is_set params.username && is_set params.email)
          s
          (create_user api params s)
  unfolding create_user send
  create_user-Guarded params =
      checked-Guarded (create_failed api) (is_set params.username && is_set params.email) _
        (λ token s.
          let (answer, w) = api.create_user token (new_user api params) s.world in
          after_create-Calls token params.password (created_user (new_user api params)) answer w
            s.log)

  apply_role-Guarded :
      (c : Call) (apply : String → R → W → Option GoError × W) (id name : String) (s : Session W)
      → Guarded some (is_set id && is_set name) s (apply_role api c apply id name s)
  unfolding apply_role send
  apply_role-Guarded c apply id name = checked-Guarded some (is_set id && is_set name) _ (λ token s.
      let (answer, w) = api.get_realm_role token name s.world in
      with_role-Calls token (got_role name) c (apply token) answer w s.log)

  -- Every operation on users and roles refuses invalid arguments with ErrInvalidInput before it calls
  -- anything; otherwise it asks for a token, and passes on the error if there is none without calling
  -- Keycloak; otherwise it makes one or two calls, each with that token. An identifier, a name of a
  -- role, a user name and an email address must not be empty, an offset not be negative, a limit be
  -- positive, and there must be an action to send.
  pub admin-Guarded :
      (params : CreateUserParams) (update : UpdateUserParams) (id name : String) (enabled : Bool)
      (offset limit : ℤ) (actions : List String) (s : Session W)
      → Guarded
          (create_failed api)
          (is_set params.username && is_set params.email)
          s
          (create_user api params s)
        × Guarded some (is_set id) s (update_user api id update s)
        × Guarded some (is_set id) s (set_enabled api id enabled s)
        × Guarded err (is_set id) s (get_user api id s)
        × Guarded err
            (leb_ℤ (pos 0) offset && ltb_ℤ (pos 0) limit)
            s
            (list_users api offset limit s)
        × Guarded err (is_set id) s (user_roles api id s)
        × Guarded some (is_set id && is_set name) s (add_role api id name s)
        × Guarded some (is_set id && is_set name) s (remove_role api id name s)
        × Guarded err true s (roles api s)
        × Guarded some (is_set id && not (is_empty actions)) s (send_actions_email api id actions s)
  unfolding update_user set_enabled get_user list_users user_roles add_role remove_role roles
      send_actions_email
  admin-Guarded params update id name enabled offset limit actions s = (
    create_user-Guarded params s,
    checked-Guarded some (is_set id) _ (send-Calls _ (λ token. api.update_user token _)) s,
    checked-Guarded some (is_set id) _ (send-Calls _ (λ token. api.update_user token _)) s,
    checked-Guarded err (is_set id) _ (send-Calls _ (λ token. api.get_user_by_id token id)) s,
    checked-Guarded err (leb_ℤ (pos 0) offset && ltb_ℤ (pos 0) limit) _
        (send-Calls _ (λ token. api.get_users token offset limit)) s,
    checked-Guarded err (is_set id) _
        (send-Calls _ (λ token. api.get_realm_roles_by_user_id token id)) s,
    apply_role-Guarded (added_role id) (λ token. api.add_realm_role token id) id name s,
    apply_role-Guarded (removed_role id) (λ token. api.delete_realm_role token id) id name s,
    checked-Guarded err true _ (send-Calls _ (λ token. api.get_realm_roles token)) s,
    checked-Guarded some (is_set id && not (is_empty actions)) _
        (send-Calls _ (λ token. api.execute_actions_email token id actions)) s,
  )
