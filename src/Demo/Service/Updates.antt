-- ===== src/Demo/Service/Updates.antt =====
-- examples/demo-api/internal/service/update_user.go and get_user.go: what becomes of a user that is
-- updated.
use gframework.Base.{ℕ, String, ◌≡◌, refl, sym, ◌∙◌, ◌⊎◌, none, some, arith}
use gframework.Errors.{Result}
use gframework.Httpserver.Handling.{
  new_response, End, responded, failed, http_error, internal_error, not_found_error,
}
use gframework.Demo.Users.{User, update, update_user}
use gframework.Demo.Service.{
  Service, GetUserResponse, user_response, UpdateUserRequest, UpdateUserResponse, email_key,
  after_update, update_user_execute,
}
use gframework.Demo.Service.Table.{
  Rows, put, Same, Ends, broken, updated, nothing_updated, Table, error_500,
}

abbrev pub updated_response : User → UpdateUserResponse
updated_response u = record {
  id = u.id;
  name = u.name;
  email = u.email;
  created_at = u.created_at;
  updated_at = u.updated_at;
}

abbrev pub changed_by : UpdateUserRequest → ℕ → User → User
changed_by req now u = record u { name = req.name; email = req.email; updated_at = now }

module _ {W : Type 0} (s : Service W) (table : Table W s) where
  -- How an update ends.
  pub data Updated (req : UpdateUserRequest) (w : W) : End UpdateUserResponse × W → Type 0 where
    changed :
        (u : User) (now : ℕ) (w' : W)
        → table.rows w req.user_id ≡ some u
        → Same (table.rows w') (put req.user_id (changed_by req now u) (table.rows w))
        → Updated req w
            (responded (some (new_response (updated_response (changed_by req now u)))), w')
    no_user :
        (w' : W)
        → table.rows w req.user_id ≡ none
        → Same (table.rows w') (table.rows w)
        → Updated req w (failed (record { code = 404; message = "User not found" }), w')
    not_changed :
        (w' : W)
        → Same (table.rows w') (table.rows w)
        → Updated req w (failed (error_500 "Failed to update user"), w')

  put-Same :
      (id : String) (u : User) (a b c d : Rows)
      → Same a b
      → Same b (put id u c)
      → Same c d
      → Same a (put id u d)
  put-Same id u a b c d ab bc cd k = ground (ab k, bc k, cd k, arith)

  after_update-Updated :
      (req : UpdateUserRequest) (start w : W) (now : ℕ) (r : Result User) (w' : W) (after : Rows)
      → Same (table.rows w) (table.rows start)
      → table.rows w' ≡ after
      → Ends table.missing s.not_found
          (table.rows w)
          (update req.name req.email now req.user_id)
          r
          after
      → Updated req start (after_update s req (r, w'))
  unfolding http_error internal_error not_found_error
  after_update-Updated req start w now r w' after before is (broken q e a plain same) =
      rw plain (not_changed w' (λ k. (rw (sym is) at same) k ∙ before k))
  after_update-Updated req start w now r w' after before is (nothing_updated n m t id a gone same) =
      rw table.is_not_found
        (no_user w' (sym (before id) ∙ gone) (λ k. (rw (sym is) at same) k ∙ before k))
  after_update-Updated req start w now r w' after before is
        (updated n m t id u v a there made same) =
      rw made (
        changed u t _ (sym (before id) ∙ there) (
          put-Same id _ _ (table.rows w') (table.rows w) (table.rows start)
            (table.set-rows (email_key req.email) u.id w') (rw (made, sym is) at same) before))

  -- An update of a user that exists gives the row the name and the email asked for and a new instant of
  -- change, keeps the rest of it, leaves every other row as it was, and answers with the new row. For an
  -- identifier without a row the answer is 404, and when the database fails it is 500; both leave all
  -- rows as they were. The cache has no part in the answer.
  pub update_user_execute-Updated :
      (req : UpdateUserRequest) (w : W) → Updated req w (update_user_execute s req w)
  unfolding update_user_execute update_user
  update_user_execute-Updated req w =
      let (now, w1) = s.repo.now w in
      after_update-Updated req w w1 now _ _ _ (table.now-rows w) refl
        (table.update-ends req.name req.email now req.user_id w1)

  -- A read of a user with these data, unless the database fails.
  pub data Answers (u : User) : End GetUserResponse → Type 0 where
    answered : Answers u (responded (some (new_response (user_response u))))
    failed_read : Answers u (failed (error_500 "Failed to fetch user"))

  -- What reading a user, updating it and reading it again answer.
  pub data GetUpdateGet (req : UpdateUserRequest)
      : End GetUserResponse → End UpdateUserResponse → End GetUserResponse → Type 0 where
    renamed :
        (u : User) (now : ℕ) (last : End GetUserResponse)
        → Answers (changed_by req now u) last
        → GetUpdateGet req
            (responded (some (new_response (user_response u))))
            (responded (some (new_response (updated_response (changed_by req now u)))))
            last
    unchanged :
        (u : User) (last : End GetUserResponse)
        → Answers u last
        → GetUpdateGet req
            (responded (some (new_response (user_response u))))
            (failed (error_500 "Failed to update user"))
            last
    absent_user :
        (second : End UpdateUserResponse) (last : End GetUserResponse)
        → (second ≡ failed (record { code = 404; message = "User not found" }))
          ⊎ (second ≡ failed (error_500 "Failed to update user"))
        → (last ≡ failed (record { code = 404; message = "User not found" }))
          ⊎ (last ≡ failed (error_500 "Failed to fetch user"))
        → GetUpdateGet req (failed (record { code = 404; message = "User not found" })) second last
    unread :
        (second : End UpdateUserResponse) (last : End GetUserResponse)
        → GetUpdateGet req (failed (error_500 "Failed to fetch user")) second last
