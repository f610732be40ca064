-- ===== src/Demo/Service/Tests.antt =====
-- Runs of the services for users, and concrete uses of what is proved of them.
use gframework.Base.{
  wrap_64, ◌*ℤ◌, ◌-ℤ◌, ◌+ℤ◌, ℕ, String, ◌≡◌, refl, ◌⊎◌, Option, none, some, List, [], ◌∷◌, map,
  take, drop, pos, pos_part, str_eq, if◌then◌else◌, arith,
}
use gframework.Errors.{GoError, sentinel, is, Result, ok, err}
use gframework.Cache.Keys.{build_key}
use gframework.Httpserver.Pagination.{normalize_page, new_pagination}
use gframework.Httpserver.Handling.{
  HandlerResponse, new_response, new_paginated_response, not_found_error, internal_error,
  http_error, responded, failed,
}
use gframework.Demo.Users.{
  User, Query, insert, by_id, by_email, page, count, update, delete, create_user, get_user_by_id,
  count_users, list_users, update_user,
}
use gframework.Demo.Service.{
  Service, CreateUserRequest, CreateUserResponse, UpdateUserRequest, ListUsersResponse,
  user_response, create_user_execute, get_user_execute, update_user_execute, list_users_execute,
}
use gframework.Demo.Service.Table.{
  Ends, broken, inserted, found, absent, updated, nothing_updated, Table, error_500,
}
use gframework.Demo.Service.Pages.{request, walk, walk_complete}
use gframework.Demo.Service.Writes.{ReadBack, create-get}

-- A table whose keys are found by a function, with the next identifier.
record Db : Type 0 where
  rows : String → Option User
  next : String
  log : List String

abbrev fault : GoError
fault = sentinel "connection reset"

abbrev no_rows : GoError
no_rows = sentinel "no rows"

abbrev write : String → User → Db → Db
write id u db = record db { rows = λ k. if str_eq id k then some u else db.rows k }

abbrev inserting : User → Option User → Db → Result User × Db
inserting u (some old) db = (err fault, db)
inserting u none db = (ok u, write u.id u db)

abbrev reading : Option User → Db → Result User × Db
reading (some u) db = (ok u, db)
reading none db = (err no_rows, db)

abbrev renamed : String → String → ℕ → User → User
renamed name email now u = record u { name = name; email = email; updated_at = now }

abbrev updating : String → String → ℕ → String → Option User → Db → Result User × Db
updating name email now id none db = (err no_rows, db)
updating name email now id (some u) db =
    (ok (renamed name email now u), write id (renamed name email now u) db)

abbrev get : Query → Db → Result User × Db
get (insert u) db = inserting u (db.rows u.id) db
get (by_id id) db = reading (db.rows id) db
get (by_email email) db = (err fault, db)
get (page limit offset) db = (err fault, db)
get count db = (err fault, db)
get (update name email now id) db = updating name email now id (db.rows id) db
get (delete id) db = (err fault, db)

abbrev ann : User
ann = record { id = "1"; name = "Ann"; email = "a@x.io"; created_at = 1; updated_at = 1 }

abbrev bob : User
bob = record { id = "2"; name = "Bob"; email = "b@x.io"; created_at = 0; updated_at = 0 }

abbrev listed : List User
listed = ann ∷ bob ∷ []

abbrev selected : Query → Result (List User)
selected (page limit offset) = ok (take (pos_part limit) (drop (pos_part offset) listed))
selected (insert u) = err fault
selected (by_id id) = err fault
selected (by_email email) = err fault
selected count = err fault
selected (update name email now id) = err fault
selected (delete id) = err fault

abbrev shop : Service Db
shop = record {
  repo = record {
    get = get;
    select = λ q db. (selected q, db);
    query_row = λ q db. (ok (pos 2), db);
    exec = λ q db. (none, db);
    now = λ db. (7, db);
    new_uuid = λ db. (db.next, db);
  };
  valkey_set = λ key value ttl db. (some fault, record db { log = key ∷ db.log });
  not_found = λ e. is e "no rows";
  status_text = λ code. "";
  text_of = λ e. "";
}

abbrev one_user : Db
one_user = record { rows = λ k. if str_eq k "1" then some ann else none; next = "3"; log = [] }

inserting-Ends :
    (u : User) (old : Option User) (db : Db)
    → db.rows u.id ≡ old
    → Ends no_rows shop.not_found db.rows
        (insert u)
        (inserting u old db).0
        (inserting u old db).1.rows
unfolding is
inserting-Ends u (some v) db e = broken _ _ _ refl (λ k. refl)
inserting-Ends u none db e = inserted u _ e (λ k. refl)

reading-Ends :
    (id : String) (old : Option User) (db : Db)
    → db.rows id ≡ old
    → Ends no_rows shop.not_found db.rows (by_id id) (reading old db).0 (reading old db).1.rows
reading-Ends id (some v) db e = found id v _ e (λ k. refl)
reading-Ends id none db e = absent id _ e (λ k. refl)

updating-Ends :
    (name email : String) (now : ℕ) (id : String) (old : Option User) (db : Db)
    → db.rows id ≡ old
    → Ends no_rows shop.not_found db.rows
        (update name email now id)
        (updating name email now id old db).0
        (updating name email now id old db).1.rows
updating-Ends name email now id (some v) db e = updated name email now id v _ _ e refl (λ k. refl)
updating-Ends name email now id none db e = nothing_updated name email now id _ e (λ k. refl)

abbrev table : Table Db shop
unfolding is
table = record {
  rows = λ db. db.rows;
  missing = no_rows;
  is_not_found = refl;
  now-rows = λ db k. refl;
  new_uuid-rows = λ db k. refl;
  set-rows = λ key value db k. refl;
  insert-ends = λ u db. inserting-Ends u (db.rows u.id) db refl;
  by_id-ends = λ id db. reading-Ends id (db.rows id) db refl;
  update-ends = λ name email now id db. updating-Ends name email now id (db.rows id) db refl;
}

abbrev joining : CreateUserRequest
joining = record { name = "Cem"; email = "c@x.io" }

abbrev renaming : UpdateUserRequest
renaming = record { user_id = "1"; name = "Ann"; email = "ann@x.io" }

-- The last run leaves the key of the old email in the cache.
runs :
    ((create_user_execute shop joining one_user).0
      ≡ responded (
          some
            (new_response (record { id = "3"; name = "Cem"; email = "c@x.io"; created_at = 7 }))))
    × ((get_user_execute shop (record { user_id = "9" }) one_user).0
        ≡ failed (record { code = 404; message = "User not found" }))
    × ((list_users_execute shop (request 2 1) one_user).0
        ≡ responded (
            some (record {
              payload = record { users = user_response bob ∷ [] };
              pagination = some (record {
                page = pos 2;
                page_size = pos 1;
                total_count = pos 2;
                total_pages = pos 2;
              });
            })))
    × ((update_user_execute shop renaming one_user).1.log ≡ "user:email:ann@x.io" ∷ [])
unfolding create_user_execute create_user get_user_execute get_user_by_id is not_found_error
    http_error list_users_execute count_users list_users new_paginated_response normalize_page
    new_pagination wrap_64 ◌*ℤ◌ ◌-ℤ◌ ◌+ℤ◌ update_user_execute update_user build_key internal_error
    new_response
runs = (refl, refl, refl, refl)

create-get_example :
    let (end, w') = create_user_execute shop joining one_user in
    (end ≡ failed (error_500 "Failed to create user"))
    ⊎ ((c : CreateUserResponse) × (end ≡ responded (some (new_response c)))
        × (c.name ≡ "Cem")
        × (c.email ≡ "c@x.io")
        × ReadBack shop table c (get_user_execute shop (record { user_id = c.id }) w').0)
create-get_example = create-get shop table joining one_user

walk_complete_example :
    (pages : ℕ) × ((r : HandlerResponse ListUsersResponse) × ((list_users_execute shop
          (request 1 1)
          one_user).0
        ≡ responded (some r))
      × (r.pagination
          ≡ some (record {
            page = pos 1;
            page_size = pos 1;
            total_count = pos 2;
            total_pages = pos pages;
          })))
    × (walk shop one_user 1 pages ≡ map user_response listed)
walk_complete_example =
    walk_complete shop one_user listed 1 refl (λ limit offset. refl) (omega arith) (omega arith)
      (omega arith)
