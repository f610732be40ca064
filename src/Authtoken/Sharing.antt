-- ===== src/Authtoken/Sharing.antt =====
-- authtoken/client.go: how callers share one login.
use gframework.Base.{
  String, ◌≡◌, ◌≢◌, refl, inl, inr, true, false, Option, some, List, [], ◌∷◌, All, str_eq, eq_iff,
  arith, Bool-cases, ℤ, ◌<ℤ◌,
}
use gframework.Errors.{Result, ok}
use gframework.Authtoken.{
  Client, Jwt, Call, is_fresh, store_answer, locked_token, waiting_callers, expiry,
}

-- The second check falls before the time.
abbrev pub Before : ℤ → Call → Type 0
Before time call = call.second_check <ℤ time

abbrev pub repeated : String → List Call → List (Result String)
repeated token [] = []
repeated token (call ∷ calls) = ok token ∷ repeated token calls

is_fresh-true :
    (c : Client) (now : ℤ) → c.access_token ≢ "" → now <ℤ c.expires_at → is_fresh c now ≡ true
unfolding is_fresh
is_fresh-true c now h b = ground (arith, eq_iff c.access_token "")

locked_token-fresh :
    (call : Call) (c : Client)
    → c.access_token ≢ ""
    → Before c.expires_at call
    → locked_token call c ≡ record { token = ok c.access_token; client = c; logins = 0 }
unfolding locked_token
locked_token-fresh call c h b = rw (is_fresh-true c call.second_check h b) refl

waiting_callers-fresh :
    (calls : List Call) (c : Client)
    → c.access_token ≢ ""
    → All (Before c.expires_at) calls
    → waiting_callers calls c ≡ (repeated c.access_token calls, 0)
unfolding waiting_callers
waiting_callers-fresh [] c h bs = refl
waiting_callers-fresh (call ∷ calls) c h (b, bs) =
    rw (locked_token-fresh call c h b, waiting_callers-fresh calls c h bs) refl

renewed : Client → Jwt → ℤ → Client
renewed c jwt now = record c { access_token = jwt.access_token; expires_at = expiry c jwt now }

store_answer-given :
    (now : ℤ) (answer : Result (Option Jwt)) (c : Client) (jwt : Jwt)
    → answer ≡ ok (some jwt)
    → jwt.access_token ≢ ""
    → store_answer now answer c ≡ (ok jwt.access_token, renewed c jwt now)
unfolding store_answer renewed
store_answer-given now answer c jwt given h = elim (Bool-cases (str_eq jwt.access_token "")) [
  | inl empty ↦ absurd (ground (arith, eq_iff jwt.access_token ""))
  | inr full ↦ rw (given, full) refl
]

locked_token-renews :
    (call : Call) (c : Client) (jwt : Jwt)
    → is_fresh c call.second_check ≡ false
    → call.login ≡ ok (some jwt)
    → jwt.access_token ≢ ""
    → locked_token call c
      ≡ record { token = ok jwt.access_token; client = renewed c jwt call.logged_in; logins = 1 }
unfolding locked_token
locked_token-renews call c jwt stale answer given =
    rw (stale, store_answer-given call.logged_in call.login c jwt answer given) refl

-- Callers that all found no token and queue for the lock share one login: if the first of them gets a
-- token, and the others check again before it expires (less the buffer), then all of them return this
-- token and there was exactly one login.
pub waiting_callers-share :
    (call : Call) (calls : List Call) (c : Client) (jwt : Jwt)
    → is_fresh c call.second_check ≡ false
    → call.login ≡ ok (some jwt)
    → jwt.access_token ≢ ""
    → All (Before (expiry c jwt call.logged_in)) calls
    → waiting_callers (call ∷ calls) c ≡ (repeated jwt.access_token (call ∷ calls), 1)
unfolding waiting_callers renewed
waiting_callers-share call calls c jwt stale answer given bs =
    rw
      (
        locked_token-renews call c jwt stale answer given,
        waiting_callers-fresh calls (renewed c jwt call.logged_in) given bs,
      )
      refl
