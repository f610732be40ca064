-- ===== src/Demo/Service/Writes.antt =====
-- examples/demo-api/internal/service/create_user.go, update_user.go and get_user.go: what becomes of the
-- table of users.
use gframework.Base.{◌≡◌, refl, sym, ◌∙◌, ◌⊎◌, inl, inr, none, some, eq_refl, arith}
use gframework.Errors.{Result}
use gframework.Httpserver.Handling.{
  new_response, End, responded, failed, http_error, internal_error,
}
use gframework.Demo.Users.{User, insert, create_user}
use gframework.Demo.Service.{
  Service, CreateUserRequest, CreateUserResponse, GetUserResponse, email_key, after_create,
  create_user_execute, get_user_execute,
}
use gframework.Demo.Service.Table.{
  Rows, put, Same, Ends, broken, inserted, Table, error_500, Got, got, got_none, not_got,
  get_user_execute-Got,
}

module _ {W : Type 0} (s : Service W) (table : Table W s) where
  abbrev created_response : User → CreateUserResponse
  created_response u = record {
    id = u.id;
    name = u.name;
    email = u.email;
    created_at = u.created_at;
  }

  pub data Created (req : CreateUserRequest) (w : W) : End CreateUserResponse × W → Type 0 where
    created :
        (u : User) (w' : W)
        → u.name ≡ req.name
        → u.email ≡ req.email
        → table.rows w u.id ≡ none
        → Same (table.rows w') (put u.id u (table.rows w))
        → Created req w (responded (some (new_response (created_response u))), w')
    not_created :
        (w' : W)
        → Same (table.rows w') (table.rows w)
        → Created req w (failed (error_500 "Failed to create user"), w')

  put-Same :
      (u : User) (a b c d : Rows)
      → Same a b
      → Same b (put u.id u c)
      → Same c d
      → Same a (put u.id u d)
  put-Same u a b c d ab bc cd k = ground (ab k, bc k, cd k, arith)

  -- `start` is the state before the identifier and the clock are asked.
  after_create-Created :
      (req : CreateUserRequest) (start w : W) (u : User) (r : Result User) (w' : W) (after : Rows)
      → Same (table.rows w) (table.rows start)
      → u.name ≡ req.name
      → u.email ≡ req.email
      → table.rows w' ≡ after
      → Ends table.missing s.not_found (table.rows w) (insert u) r after
      → Created req start (after_create s req (r, w'))
  unfolding http_error internal_error
  after_create-Created req start w u r w' after before n e is (broken q b a plain same) =
      not_created w' (λ k. (rw (sym is) at same) k ∙ before k)
  after_create-Created req start w u r w' after before n e is (inserted v a new same) =
      created u _ n e (sym (before u.id) ∙ new) (
        put-Same u _ (table.rows w') (table.rows w) (table.rows start)
          (table.set-rows (email_key req.email) u.id w') (rw (sym is) at same) before)

  pub create_user_execute-Created :
      (req : CreateUserRequest) (w : W) → Created req w (create_user_execute s req w)
  unfolding create_user_execute create_user
  create_user_execute-Created req w =
      let (id, w1) = s.repo.new_uuid w in
      let (made, w2) = s.repo.now w1 in
      let (changed, w3) = s.repo.now w2 in
      let u : User = record {
        id = id;
        name = req.name;
        email = req.email;
        created_at = made;
        updated_at = changed;
      } in
      after_create-Created req w w3 u _ _ _
        (λ k. table.now-rows w2 k ∙ (table.now-rows w1 k ∙ table.new_uuid-rows w k)) refl refl refl
        (table.insert-ends u w3)

  -- What a client reads back of a created user.
  pub data ReadBack (c : CreateUserResponse) : End GetUserResponse → Type 0 where
    read : ReadBack c (
        responded (
          some (
            new_response
              (record { id = c.id; name = c.name; email = c.email; created_at = c.created_at }))))
    unread : ReadBack c (failed (error_500 "Failed to fetch user"))

  got-ReadBack :
      (u : User) (w : W) (p : End GetUserResponse × W)
      → table.rows w u.id ≡ some u
      → Got s table u.id w p
      → ReadBack (created_response u) p.0
  got-ReadBack u w p there (got v w' here same) = let is : v ≡ u = cc (there, here) in rw is read
  got-ReadBack u w p there (got_none w' gone same) = absurd (cc (there, gone))
  got-ReadBack u w p there (not_got w' same) = unread

  Created-ReadBack :
      (req : CreateUserRequest) (w : W) (p : End CreateUserResponse × W)
      → Created req w p
      → (p.0 ≡ failed (error_500 "Failed to create user"))
        ⊎ ((c : CreateUserResponse) × (p.0 ≡ responded (some (new_response c)))
            × (c.name ≡ req.name)
            × (c.email ≡ req.email)
            × ReadBack c (get_user_execute s (record { user_id = c.id }) p.1).0)
  Created-ReadBack req w p (not_created w' same) = inl refl
  Created-ReadBack req w p (created u w' n e new same) = inr (
    created_response u,
    refl,
    n,
    e,
    got-ReadBack u w' _ (same u.id ∙ rw (eq_refl u.id) refl) (get_user_execute-Got s table w' u.id),
  )

  -- A user is created, with the name and the email asked for and an identifier that was free, or the
  -- answer is 500. The response's identifier then reads back the same data, or the read fails with 500;
  -- a created user is never answered with 404. The cache changes neither.
  pub create-get :
      (req : CreateUserRequest) (w : W)
      → let (end, w') = create_user_execute s req w in
        (end ≡ failed (error_500 "Failed to create user"))
        ⊎ ((c : CreateUserResponse) × (end ≡ responded (some (new_response c)))
            × (c.name ≡ req.name)
            × (c.email ≡ req.email)
            × ReadBack c (get_user_execute s (record { user_id = c.id }) w').0)
  create-get req w = Created-ReadBack req w _ (create_user_execute-Created req w)
