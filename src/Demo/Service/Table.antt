-- ===== src/Demo/Service/Table.antt =====
-- examples/demo-api/internal/service/get_user.go, create_user.go and update_user.go: the table of users as
-- the service relies on it, and what a read answers.
use gframework.Base.{
  ℕ, String, ◌≡◌, refl, sym, Bool, true, false, Option, none, some, str_eq, if◌then◌else◌,
}
use gframework.Errors.{GoError, Result, ok, err}
use gframework.Httpserver.Handling.{
  HttpError, new_response, End, responded, failed, http_error, internal_error, not_found_error,
}
use gframework.Demo.Users.{User, Query, insert, by_id, by_email, update, get_user_by_id}
use gframework.Demo.Service.{
  Service, GetUserResponse, user_response, cache_expiration, after_get, get_user_execute,
}

-- The rows by their identifiers.
abbrev pub Rows : Type 0
Rows = String → Option User

abbrev pub put : String → User → Rows → Rows
put id u rows k = if str_eq id k then some u else rows k

abbrev pub Same : Rows → Rows → Type 0
Same a b = (k : String) → a k ≡ b k

-- How a statement that returns at most one row ends in a state with the rows `after`. `missing` is pgx's
-- error for no row.
pub data Ends (missing : GoError) (not_found : GoError → Bool) (before : Rows)
    : Query → Result User → Rows → Type 0 where
  broken :
      (q : Query) (e : GoError) (after : Rows)
      → not_found e ≡ false
      → Same after before
      → Ends missing not_found before q (err e) after
  inserted :
      (u : User) (after : Rows)
      → before u.id ≡ none
      → Same after (put u.id u before)
      → Ends missing not_found before (insert u) (ok u) after
  found :
      (id : String) (u : User) (after : Rows)
      → before id ≡ some u
      → Same after before
      → Ends missing not_found before (by_id id) (ok u) after
  absent :
      (id : String) (after : Rows)
      → before id ≡ none
      → Same after before
      → Ends missing not_found before (by_id id) (err missing) after
  found_email :
      (email id : String) (u : User) (after : Rows)
      → before id ≡ some u
      → u.email ≡ email
      → Same after before
      → Ends missing not_found before (by_email email) (ok u) after
  absent_email :
      (email : String) (after : Rows)
      → ((id : String) (u : User) → before id ≡ some u → ¬ (u.email ≡ email))
      → Same after before
      → Ends missing not_found before (by_email email) (err missing) after
  updated :
      (name email : String) (now : ℕ) (id : String) (u v : User) (after : Rows)
      → before id ≡ some u
      → v ≡ record u { name = name; email = email; updated_at = now }
      → Same after (put id v before)
      → Ends missing not_found before (update name email now id) (ok v) after
  nothing_updated :
      (name email : String) (now : ℕ) (id : String) (after : Rows)
      → before id ≡ none
      → Same after before
      → Ends missing not_found before (update name email now id) (err missing) after

-- What the service relies on: its three statements end as above, and the clock, the identifiers and the
-- cache do not touch the rows.
pub record Table (W : Type 0) (s : Service W) : Type 0 where
  pub rows : W → Rows
  pub missing : GoError
  pub is_not_found : s.not_found missing ≡ true
  pub now-rows : (w : W) → Same (rows (s.repo.now w).1) (rows w)
  pub new_uuid-rows : (w : W) → Same (rows (s.repo.new_uuid w).1) (rows w)
  pub set-rows :
      (key value : String) (w : W)
      → Same (rows (s.valkey_set key value cache_expiration w).1) (rows w)
  pub insert-ends :
      (u : User) (w : W)
      → let (r, w') = s.repo.get (insert u) w in
        Ends missing s.not_found (rows w) (insert u) r (rows w')
  pub by_id-ends :
      (id : String) (w : W)
      → let (r, w') = s.repo.get (by_id id) w in
        Ends missing s.not_found (rows w) (by_id id) r (rows w')
  pub update-ends :
      (name email : String) (now : ℕ) (id : String) (w : W)
      → let (r, w') = s.repo.get (update name email now id) w in
        Ends missing s.not_found (rows w) (update name email now id) r (rows w')

abbrev pub error_500 : String → HttpError
error_500 message = record { code = 500; message = message }

module _ {W : Type 0} (s : Service W) (table : Table W s) where
  pub data Got (id : String) (w : W) : End GetUserResponse × W → Type 0 where
    got :
        (u : User) (w' : W)
        → table.rows w id ≡ some u
        → Same (table.rows w') (table.rows w)
        → Got id w (responded (some (new_response (user_response u))), w')
    got_none :
        (w' : W)
        → table.rows w id ≡ none
        → Same (table.rows w') (table.rows w)
        → Got id w (failed (record { code = 404; message = "User not found" }), w')
    not_got :
        (w' : W)
        → Same (table.rows w') (table.rows w)
        → Got id w (failed (error_500 "Failed to fetch user"), w')

  after_get-Got :
      (id : String) (w : W) (r : Result User) (w' : W) (after : Rows)
      → table.rows w' ≡ after
      → Ends table.missing s.not_found (table.rows w) (by_id id) r after
      → Got id w (after_get s (r, w'))
  unfolding http_error internal_error not_found_error
  after_get-Got id w r w' after is (broken q e a plain same) =
      rw plain (not_got w' (rw (sym is) at same))
  after_get-Got id w r w' after is (found i u a there same) = got u w' there (rw (sym is) at same)
  after_get-Got id w r w' after is (absent i a gone same) =
      rw table.is_not_found (got_none w' gone (rw (sym is) at same))

  pub get_user_execute-Got :
      (w : W) (id : String) → Got id w (get_user_execute s (record { user_id = id }) w)
  unfolding get_user_execute get_user_by_id
  get_user_execute-Got w id = after_get-Got id w _ _ _ refl (table.by_id-ends id w)
