-- ===== src/Keycloak/Admin.antt =====
-- keycloak/admin.go: the operations on users and realm roles, with a log of the calls of gocloak.
pub mod Guarded
mod Tests
use gframework.Base.{
  String, Bool, true, false, not, ◌&&◌, Option, none, some, List, [], ◌∷◌, ℤ, pos, ltb_ℤ, leb_ℤ,
  str_eq, if◌then◌else◌,
}
use gframework.Errors.{GoError, sentinel, wrap, Result, ok, err}

-- The fields of gocloak.User that are set; a field that is not set is left as it is by an update.
pub record User : Type 0 where
  pub id : Option String
  pub username : Option String
  pub email : Option String
  pub first_name : Option String
  pub last_name : Option String
  pub enabled : Option Bool
  pub email_verified : Option Bool

pub record CreateUserParams : Type 0 where
  pub username : String
  pub email : String
  pub first_name : String
  pub last_name : String
  pub password : String

pub record UpdateUserParams : Type 0 where
  pub email : String
  pub first_name : String
  pub last_name : String

pub data Call : Type 0 where
  created_user updated_user : User → Call
  set_password : String → String → Call
  got_user got_user_roles got_role : String → Call
  listed_users : ℤ → ℤ → Call
  added_role removed_role : String → Call
  got_roles : Call
  sent_email : String → List String → Call

-- A call with the access token that it carries.
pub data Sent : Type 0 where
  sent : String → Call → Sent

-- The newest call first.
pub record Session (W : Type 0) : Type 0 where
  pub world : W
  pub log : List Sent

-- gocloak in one realm, on a state `W`; `U` and `R` are its users and roles. `token` is the token
-- provider of package authtoken.
pub record Gocloak (W U R : Type 0) : Type 0 where
  pub token : W → Result String × W
  pub create_user : String → User → W → Result String × W
  pub set_password : String → String → String → W → Option GoError × W
  pub update_user : String → User → W → Option GoError × W
  pub get_user_by_id : String → String → W → Result U × W
  pub get_users : String → ℤ → ℤ → W → Result (List U) × W
  pub get_realm_roles_by_user_id : String → String → W → Result (List R) × W
  pub get_realm_role : String → String → W → Result R × W
  pub add_realm_role : String → String → R → W → Option GoError × W
  pub delete_realm_role : String → String → R → W → Option GoError × W
  pub get_realm_roles : String → W → Result (List R) × W
  pub execute_actions_email : String → String → List String → W → Option GoError × W

abbrev no_fields : User
no_fields = record {
  id = none;
  username = none;
  email = none;
  first_name = none;
  last_name = none;
  enabled = none;
  email_verified = none;
}

abbrev pub is_set : String → Bool
is_set text = not (str_eq text "")

abbrev pub is_empty : List String → Bool
is_empty [] = true
is_empty (a ∷ rest) = false

module _ {W U R : Type 0} (api : Gocloak W U R) where
  send : {A : Type 0} → String → Call → (W → A × W) → Session W → A × Session W
  send token c f s = let (a, w) = f s.world in (a, record { world = w; log = sent token c ∷ s.log })

  -- The checks of the arguments, then the token, then the calls that use it. `failed` makes an error
  -- a result.
  module _ {A : Type 0} (failed : GoError → A) where
    pub on_token :
        (String → Session W → A × Session W) → Result String × W → Session W → A × Session W
    on_token body (err e, w) s = (failed e, record s { world = w })
    on_token body (ok token, w) s = body token (record s { world = w })

    pub checked : Bool → (String → Session W → A × Session W) → Session W → A × Session W
    checked false body s = (failed (wrap "requires" (sentinel "ErrInvalidInput")), s)
    checked true body s = on_token body (api.token s.world) s

  -- The identifier comes with the error of a password that could not be set.
  pub create_failed : GoError → String × Option GoError
  create_failed e = ("", some e)

  after_create : String → String → Result String × Session W → (String × Option GoError) × Session W
  after_create token password (err e, s) = (create_failed e, s)
  after_create token password (ok id, s) =
      if is_set password
      then (let (e, t) =
            send token (set_password id password) (api.set_password token id password) s in
          ((id, e), t))
      else ((id, none), s)

  new_user : CreateUserParams → User
  new_user params = record no_fields {
    username = some params.username;
    email = some params.email;
    first_name = some params.first_name;
    last_name = some params.last_name;
    enabled = some true;
    email_verified = some false;
  }

  pub create_user : CreateUserParams → Session W → (String × Option GoError) × Session W
  create_user params =
      checked create_failed (is_set params.username && is_set params.email) (λ token s.
        after_create token params.password
          (send token (created_user (new_user params)) (api.create_user token (new_user params)) s))

  pub update_user : String → UpdateUserParams → Session W → Option GoError × Session W
  update_user id params =
      let user : User = record no_fields {
        id = some id;
        email = some params.email;
        first_name = some params.first_name;
        last_name = some params.last_name;
      } in
      checked some (is_set id)
        (λ token. send token (updated_user user) (api.update_user token user))

  pub set_enabled : String → Bool → Session W → Option GoError × Session W
  set_enabled id enabled =
      let user : User = record no_fields { id = some id; enabled = some enabled } in
      checked some (is_set id)
        (λ token. send token (updated_user user) (api.update_user token user))

  pub get_user : String → Session W → Result U × Session W
  get_user id =
      checked err (is_set id) (λ token. send token (got_user id) (api.get_user_by_id token id))

  pub list_users : ℤ → ℤ → Session W → Result (List U) × Session W
  list_users offset limit =
      checked err (leb_ℤ (pos 0) offset && ltb_ℤ (pos 0) limit)
        (λ token. send token (listed_users offset limit) (api.get_users token offset limit))

  pub user_roles : String → Session W → Result (List R) × Session W
  user_roles id =
      checked err (is_set id)
        (λ token. send token (got_user_roles id) (api.get_realm_roles_by_user_id token id))

  with_role :
      (R → Session W → Option GoError × Session W)
      → Result R × Session W
      → Option GoError × Session W
  with_role apply (err e, s) = (some e, s)
  with_role apply (ok role, s) = apply role s

  -- The call that changes the roles is a parameter, with its entry for the log.
  pub apply_role :
      Call
      → (String → R → W → Option GoError × W)
      → String
      → String
      → Session W
      → Option GoError × Session W
  apply_role c apply id name = checked some (is_set id && is_set name) (λ token s.
      with_role (λ role. send token c (apply token role))
        (send token (got_role name) (api.get_realm_role token name) s))

  pub add_role : String → String → Session W → Option GoError × Session W
  add_role id = apply_role (added_role id) (λ token. api.add_realm_role token id) id

  pub remove_role : String → String → Session W → Option GoError × Session W
  remove_role id = apply_role (removed_role id) (λ token. api.delete_realm_role token id) id

  pub roles : Session W → Result (List R) × Session W
  roles = checked err true (λ token. send token got_roles (api.get_realm_roles token))

  pub send_actions_email : String → List String → Session W → Option GoError × Session W
  send_actions_email id actions =
      checked some (is_set id && not (is_empty actions))
        (λ token. send token (sent_email id actions) (api.execute_actions_email token id actions))
