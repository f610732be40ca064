-- ===== src/Authtoken/Tests.antt =====
-- Runs of authtoken/client.go, and a concrete use of what is proved of it.
use gframework.Base.{
  ℕ, ◌≡◌, ◌≢◌, refl, false, none, some, [], ◌∷◌, pos, arith, ◌+ℤ◌, ◌-ℤ◌, ◌*ℤ◌, wrap_64,
}
use gframework.Errors.{ok}
use gframework.Authtoken.{
  Client, Jwt, Call, new, with_token_expiry_buffer, is_fresh, store_answer, cached, locked_token,
  get_token, invalidate_token, waiting_callers,
}
use gframework.Authtoken.Sharing.{waiting_callers-share}

abbrev jwt : Jwt
jwt = record { access_token = "xyz"; expires_in = pos 300 }

-- A call that reads the clock at a time in nanoseconds.
abbrev call_at : ℕ → Call
call_at t = record {
  first_check = pos t;
  second_check = pos t;
  logged_in = pos t;
  login = ok (some jwt);
}

abbrev second : ℕ
second = 1_000_000_000

abbrev client : Client
client = record { expiry_buffer = pos 30_000_000_000; access_token = ""; expires_at = pos 0 }

runs :
    (new (none ∷ some (with_token_expiry_buffer (pos 0)) ∷ []) ≡ client)
    × ((get_token (call_at second) client).token ≡ ok "xyz")
    × ((get_token (call_at 270_000_000_000) (get_token (call_at second) client).client).logins ≡ 0)
    × ((get_token (call_at 271_000_000_000) (get_token (call_at second) client).client).logins ≡ 1)
    × ((get_token (call_at 9) (invalidate_token (get_token (call_at second) client).client)).logins
        ≡ 1)
unfolding new with_token_expiry_buffer is_fresh store_answer cached locked_token get_token
    invalidate_token ◌+ℤ◌ ◌-ℤ◌ ◌*ℤ◌ wrap_64
runs = (refl, refl, refl, refl, refl)

stale : is_fresh client (pos second) ≡ false
unfolding is_fresh
stale = refl

named : jwt.access_token ≢ ""
named e = cc

waiting_callers-share_example :
    waiting_callers (call_at second ∷ call_at second ∷ call_at 2_000_000_000 ∷ []) client
    ≡ (ok "xyz" ∷ ok "xyz" ∷ ok "xyz" ∷ [], 1)
unfolding ◌+ℤ◌ ◌-ℤ◌ ◌*ℤ◌ wrap_64
waiting_callers-share_example =
    waiting_callers-share (call_at second) (call_at second ∷ call_at 2_000_000_000 ∷ []) client jwt
      stale refl named (omega arith, (omega arith, tt))
