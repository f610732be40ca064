-- ===== src/Authtoken.antt =====
-- authtoken/client.go: the cached access token of a service.
pub mod Sharing
mod Tests
use gframework.Base.{
  ℕ, suc, ◌+◌, String, ◌≡◌, Bool, true, false, not, ◌&&◌, Option, none, some, List, [], ◌∷◌, str_eq,
  if◌then◌else◌, ℤ, pos, ltb_ℤ, ◌+ℤ◌, ◌-ℤ◌, ◌*ℤ◌, wrap_64,
}
use gframework.Errors.{GoError, sentinel, wrap, Result, ok, err}

-- Times are nanoseconds since Go's zero time.
pub record Client : Type 0 where
  pub expiry_buffer : ℤ
  pub access_token : String
  pub expires_at : ℤ

-- gocloak.JWT as the client reads it; `expires_in` is in seconds.
pub record Jwt : Type 0 where
  pub access_token : String
  pub expires_in : ℤ

-- What one call of GetToken meets: the readings of the clock at the first and at the second check and
-- after a login, and what LoginClient would answer.
pub record Call : Type 0 where
  pub first_check : ℤ
  pub second_check : ℤ
  pub logged_in : ℤ
  pub login : Result (Option Jwt)

abbrev pub ClientOption : Type 0
ClientOption = Client → Client

pub with_token_expiry_buffer : ℤ → ClientOption
with_token_expiry_buffer buffer c =
    if ltb_ℤ (pos 0) buffer then record c { expiry_buffer = buffer } else c

-- A nil option is skipped.
abbrev pub apply_options : List (Option ClientOption) → Client → Client
apply_options [] c = c
apply_options (none ∷ os) c = apply_options os c
apply_options (some o ∷ os) c = apply_options os (o c)

pub new : List (Option ClientOption) → Client
new opts =
    apply_options opts
      (record { expiry_buffer = pos 30_000_000_000; access_token = ""; expires_at = pos 0 })

pub is_fresh : Client → ℤ → Bool
is_fresh c now = not (str_eq c.access_token "") && ltb_ℤ now c.expires_at

abbrev pub expiry : Client → Jwt → ℤ → ℤ
expiry c jwt now = now +ℤ wrap_64 (wrap_64 (jwt.expires_in *ℤ pos 1_000_000_000) -ℤ c.expiry_buffer)

-- What the client makes of an answer to its login.
pub store_answer : ℤ → Result (Option Jwt) → Client → Result String × Client
store_answer now (err e) c = (err (wrap "failed to fetch token" e), c)
store_answer now (ok none) c = (err (sentinel "ErrNoAccessToken"), c)
store_answer now (ok (some jwt)) c =
    if str_eq jwt.access_token "" then (err (sentinel "ErrNoAccessToken"), c) else (
      ok jwt.access_token,
      record c { access_token = jwt.access_token; expires_at = expiry c jwt now },
    )

-- The result, the client, and whether there was a login.
pub record Reply : Type 0 where
  pub token : Result String
  pub client : Client
  pub logins : ℕ

-- The first check, under the read lock.
pub cached : Call → Client → Option String
cached call c = if is_fresh c call.first_check then some c.access_token else none

-- The method `getToken`, under the write lock.
pub locked_token : Call → Client → Reply
locked_token call c =
    if is_fresh c call.second_check
    then record { token = ok c.access_token; client = c; logins = 0 }
    else (let (token, c') = store_answer call.logged_in call.login c in
        record { token = token; client = c'; logins = 1 })

-- A call that nothing interrupts between its two locks.
pub get_token : Call → Client → Reply
get_token call c = elim (cached call c) [
  | some token ↦ record { token = ok token; client = c; logins = 0 }
  | none ↦ locked_token call c
]

pub invalidate_token : Client → Client
invalidate_token c = record c { access_token = ""; expires_at = pos 0 }

-- Callers whose first check failed, in the order in which they get the write lock: their results and
-- the number of logins.
pub waiting_callers : List Call → Client → List (Result String) × ℕ
waiting_callers [] c = ([], 0)
waiting_callers (call ∷ calls) c =
    let r = locked_token call c in
    let (tokens, n) = waiting_callers calls r.client in (r.token ∷ tokens, r.logins + n)
