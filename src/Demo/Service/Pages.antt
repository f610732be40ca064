-- ===== src/Demo/Service/Pages.antt =====
-- examples/demo-api/internal/service/list_users.go: a walk over the pages.
use mathlib.Core.List.{map-append}
use gframework.Base.{
  ℕ, zero, suc, ◌+◌, ◌*◌, ◌≤◌, ◌<◌, ◌≡◌, refl, sym, ap, ◌∙◌, none, some, List, [], ◌++◌, map,
  length, take, drop, take-drop, take_all, pos, arith,
}
use gframework.Errors.{ok}
use gframework.Httpserver.Pagination.{Pagination, new_pagination}
use gframework.Httpserver.Pagination.Bounds.{normalize_page-in_bounds, new_pagination-total_pages}
use gframework.Httpserver.Handling.{
  HandlerResponse, new_paginated_response, End, responded, failed, panicked,
}
use gframework.Demo.Users.{User, page, count, count_users, list_users}
use gframework.Demo.Service.{
  Service, ListUsersRequest, ListUsersResponse, GetUserResponse, user_response, list_users_execute,
}

abbrev page_users : End ListUsersResponse → List GetUserResponse
page_users (responded (some r)) = r.payload.users
page_users (responded none) = []
page_users (failed e) = []
page_users (panicked v) = []

abbrev pub request : ℕ → ℕ → ListUsersRequest
request number size = record { page = pos number; page_size = pos size }

-- The users of the first pages, in the order in which the pages come.
pub walk : {W : Type 0} → Service W → W → (size pages : ℕ) → List GetUserResponse
walk s w size zero = []
walk s w size (suc n) =
    walk s w size n ++ page_users (list_users_execute s (request (suc n) size) w).0

grow : (n size : ℕ) → 0 < size → n ≤ n * size
grow n zero h = absurd (omega (arith, h))
grow n (suc m) h = let more : n * suc m ≡ n * m + n = omega arith in omega (arith, more)

-- `rows` are the rows in a fixed order; the two hypotheses are what COUNT, and LIMIT with OFFSET under
-- that order, answer.
module _ {W : Type 0} (s : Service W) (w : W) (rows : List User) (size : ℕ)
    (counts : s.repo.query_row count w ≡ (ok (pos (length rows)), w))
    (selects : (limit offset : ℕ)
      → s.repo.select (page (pos limit) (pos offset)) w ≡ (ok (take limit (drop offset rows)), w))
    (positive : 0 < size) (at_most : size ≤ 100)
    (fits : length rows + size < 9_223_372_036_854_775_808) where
  -- The answer with page n + 1.
  answer : ℕ → End ListUsersResponse
  answer n = responded (
      some (
        new_paginated_response
          (record { users = map user_response (take size (drop (n * size) rows)) })
          (some (new_pagination (pos (suc n)) (pos size) (pos (length rows))))))

  list_users-answer :
      (n : ℕ)
      → n * size < length rows + size
      → list_users_execute s (request (suc n) size) w ≡ (answer n, w)
  unfolding list_users_execute answer count_users list_users
  list_users-answer n inside =
      rw
        (
          normalize_page-in_bounds n size (omega (arith, inside, grow n size positive)) positive
              at_most (omega arith),
          counts,
          selects size (n * size),
        )
        refl

  -- The first page's data on the pages, with the number of pages left open.
  first : Pagination
  first = new_pagination (pos 1) (pos size) (pos (length rows))

  walk-take :
      (n : ℕ)
      → n * size < length rows + size
      → walk s w size n ≡ map user_response (take (n * size) rows)
  unfolding walk answer new_paginated_response
  walk-take zero inside = let none_yet : 0 * size ≡ 0 = omega arith in rw none_yet refl
  walk-take (suc n) inside =
      let before : n * size < length rows + size = omega (arith, inside) in
      let next : suc n * size ≡ n * size + size = omega arith in
      rw
        (next, list_users-answer n before, walk-take n before, sym (take-drop (n * size) size rows))
        (sym (map-append user_response (take (n * size) rows) (take size (drop (n * size) rows))))

  -- While the database answers both queries from the same rows in the same order, and for a page size
  -- between 1 and 100 that makes less than 2^63 together with the number of rows, the first answer tells
  -- a number of pages such that the pages from the first to that number contain every user exactly once,
  -- in the order of the rows.
  pub walk_complete :
      (pages : ℕ) × ((r : HandlerResponse ListUsersResponse) × ((list_users_execute s
            (request 1 size)
            w).0
          ≡ responded (some r))
        × (r.pagination
            ≡ some (record {
              page = pos 1;
              page_size = pos size;
              total_count = pos (length rows);
              total_pages = pos pages;
            })))
      × (walk s w size pages ≡ map user_response rows)
  unfolding answer first new_pagination new_paginated_response
  walk_complete =
      let (pages, is, room, tight) =
        new_pagination-total_pages (pos 1) size (length rows) positive fits in
      let start : 0 * size < length rows + size = omega arith in
      (
        pages,
        (
          _,
          ap (λ r. r.0) (list_users-answer 0 start),
          ap (λ t. some (record first { total_pages = t })) is,
        ),
        walk-take pages tight ∙ ap (map user_response) (take_all (pages * size) rows room),
      )
