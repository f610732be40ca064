-- ===== src/Keycloak/Admin/Tests.antt =====
-- Runs of keycloak/admin.go, and concrete uses of what is proved of it.
use gframework.Base.{ℕ, suc, String, ◌≡◌, refl, true, false, none, some, [], ◌∷◌, pos}
use gframework.Errors.{sentinel, ok, err}
use gframework.Keycloak.Admin.{
  CreateUserParams, UpdateUserParams, Session, Gocloak, create_failed, create_user, update_user,
  set_enabled, get_user, list_users, user_roles, add_role, remove_role, roles, send_actions_email,
  sent, got_role, checked, on_token, after_create, send, apply_role, with_role,
}
use gframework.Keycloak.Admin.Guarded.{Guarded, admin-Guarded}

-- A realm that knows no role, and in which passwords cannot be set; the state counts the calls.
abbrev api : Gocloak ℕ String String
api = record {
  token = λ w. (ok "t", suc w);
  create_user = λ t u w. (ok "id", suc w);
  set_password = λ t i p w. (some (sentinel "weak"), suc w);
  update_user = λ t u w. (none, suc w);
  get_user_by_id = λ t i w. (ok i, suc w);
  get_users = λ t o l w. (ok [], suc w);
  get_realm_roles_by_user_id = λ t i w. (ok [], suc w);
  get_realm_role = λ t n w. (err (sentinel "404"), suc w);
  add_realm_role = λ t i r w. (none, suc w);
  delete_realm_role = λ t i r w. (none, suc w);
  get_realm_roles = λ t w. (ok [], suc w);
  execute_actions_email = λ t i a w. (none, suc w);
}

abbrev fresh : Session ℕ
fresh = record { world = 0; log = [] }

abbrev alice : CreateUserParams
alice = record {
  username = "alice";
  email = "a@b.c";
  first_name = "";
  last_name = "";
  password = "pw";
}

abbrev change : UpdateUserParams
change = record { email = ""; first_name = "A"; last_name = "B" }

admin-Guarded_example :
    Guarded api (create_failed api) true fresh (create_user api alice fresh)
    × Guarded api some false fresh (update_user api "" change fresh)
    × Guarded api some false fresh (set_enabled api "" true fresh)
    × Guarded api err false fresh (get_user api "" fresh)
    × Guarded api err false fresh (list_users api (pos 0) (pos 0) fresh)
    × Guarded api err false fresh (user_roles api "" fresh)
    × Guarded api some false fresh (add_role api "" "editor" fresh)
    × Guarded api some false fresh (remove_role api "" "editor" fresh)
    × Guarded api err true fresh (roles api fresh)
    × Guarded api some false fresh (send_actions_email api "" [] fresh)
admin-Guarded_example = admin-Guarded api alice change "" "editor" true (pos 0) (pos 0) [] fresh

-- The user stays although the password was refused; the missing role stops the change.
runs :
    ((create_user api alice fresh).0 ≡ ("id", some (sentinel "weak")))
    × ((create_user api alice fresh).1.world ≡ 3)
    × (add_role api "id" "editor" fresh
        ≡ (some (sentinel "404"), record { world = 2; log = sent "t" (got_role "editor") ∷ [] }))
unfolding create_user add_role checked on_token after_create send apply_role with_role
runs = (refl, refl, refl)
