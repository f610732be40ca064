-- ===== src/Demo/Service.antt =====
-- examples/demo-api/internal/service: what the handlers for users answer. Logging is left out.
pub mod Pages
pub mod Writes
pub mod Table
pub mod Updates
mod Tests
use gframework.Base.{
  ℕ, String, Bool, true, false, Option, none, some, List, [], ◌∷◌, map, ℤ, pos, if◌then◌else◌,
}
use gframework.Errors.{GoError, Result, ok, err}
use gframework.Cache.Keys.{build_key}
use gframework.Httpserver.Pagination.{normalize_page, new_pagination}
use gframework.Httpserver.Handling.{
  HandlerResponse, new_response, new_paginated_response, HttpError, internal_error, not_found_error,
  End, responded, failed,
}
use gframework.Demo.Users.{
  User, Pool, create_user, get_user_by_id, update_user, list_users, count_users,
}

pub record CreateUserRequest : Type 0 where
  pub name : String
  pub email : String

pub record CreateUserResponse : Type 0 where
  pub id : String
  pub name : String
  pub email : String
  pub created_at : ℕ

pub record GetUserRequest : Type 0 where
  pub user_id : String

pub record GetUserResponse : Type 0 where
  pub id : String
  pub name : String
  pub email : String
  pub created_at : ℕ

pub record UpdateUserRequest : Type 0 where
  pub user_id : String
  pub name : String
  pub email : String

pub record UpdateUserResponse : Type 0 where
  pub id : String
  pub name : String
  pub email : String
  pub created_at : ℕ
  pub updated_at : ℕ

pub record ListUsersRequest : Type 0 where
  pub page : ℤ
  pub page_size : ℤ

pub record ListUsersResponse : Type 0 where
  pub users : List GetUserResponse

-- What the service is made of: the pool, the method `Set` of the Valkey client with a duration in
-- nanoseconds, pgxscan.NotFound, http.StatusText and the method `Error` of an error.
pub record Service (W : Type 0) : Type 0 where
  pub repo : Pool W
  pub valkey_set : (key value : String) (expiration : ℤ) → W → Option GoError × W
  pub not_found : GoError → Bool
  pub status_text : ℕ → String
  pub text_of : GoError → String

-- cache.BuildKey("user", "email", email)
abbrev pub email_key : String → String
email_key email = build_key (λ part. part) ("user" ∷ "email" ∷ email ∷ [])

abbrev pub cache_expiration : ℤ
cache_expiration = pos 300_000_000_000

abbrev pub user_response : User → GetUserResponse
user_response u = record { id = u.id; name = u.name; email = u.email; created_at = u.created_at }

module _ {W : Type 0} (s : Service W) where
  abbrev pub internal : GoError → String → HttpError
  internal e message = internal_error s.status_text s.text_of (some e) (message ∷ [])

  abbrev pub missing_or : GoError → String → HttpError
  missing_or e message =
      if s.not_found e
      then not_found_error s.status_text s.text_of (some e) ("User not found" ∷ [])
      else internal e message

  -- The error of the cache is only logged.
  abbrev pub cache_email : (email id : String) → W → W
  cache_email email id w = (s.valkey_set (email_key email) id cache_expiration w).1

  abbrev pub after_create : CreateUserRequest → Result User × W → End CreateUserResponse × W
  after_create req (err e, w) = (failed (internal e "Failed to create user"), w)
  after_create req (ok u, w) = (
    responded (
        some (
          new_response
            (record { id = u.id; name = u.name; email = u.email; created_at = u.created_at }))),
    cache_email req.email u.id w,
  )

  unfoldable pub create_user_execute : CreateUserRequest → W → End CreateUserResponse × W
  create_user_execute req w = after_create req (create_user s.repo req.name req.email w)

  abbrev pub after_get : Result User × W → End GetUserResponse × W
  after_get (err e, w) = (failed (missing_or e "Failed to fetch user"), w)
  after_get (ok u, w) = (responded (some (new_response (user_response u))), w)

  unfoldable pub get_user_execute : GetUserRequest → W → End GetUserResponse × W
  get_user_execute req w = after_get (get_user_by_id s.repo req.user_id w)

  abbrev pub after_update : UpdateUserRequest → Result User × W → End UpdateUserResponse × W
  after_update req (err e, w) = (failed (missing_or e "Failed to update user"), w)
  after_update req (ok u, w) = (
    responded (
        some (
          new_response (record {
            id = u.id;
            name = u.name;
            email = u.email;
            created_at = u.created_at;
            updated_at = u.updated_at;
          }))),
    cache_email req.email u.id w,
  )

  unfoldable pub update_user_execute : UpdateUserRequest → W → End UpdateUserResponse × W
  update_user_execute req w = after_update req (update_user s.repo req.user_id req.name req.email w)

  abbrev pub after_list : (p size total : ℤ) → Result (List User) × W → End ListUsersResponse × W
  after_list p size total (err e, w) = (failed (internal e "Failed to list users"), w)
  after_list p size total (ok users, w) = (
    responded (
        some (
          new_paginated_response (record { users = map user_response users })
            (some (new_pagination p size total)))),
    w,
  )

  abbrev pub after_count : (p size offset : ℤ) → Result ℤ × W → End ListUsersResponse × W
  after_count p size offset (err e, w) = (failed (internal e "Failed to count users"), w)
  after_count p size offset (ok total, w) =
      after_list p size total (list_users s.repo size offset w)

  unfoldable pub list_users_execute : ListUsersRequest → W → End ListUsersResponse × W
  list_users_execute req w =
      let (p, size, offset) = normalize_page req.page req.page_size in
      after_count p size offset (count_users s.repo w)
