-- ===== src/Httpserver/Handling/Tests.antt =====
-- Runs of httpserver/wrapper.go, call.go and error.go, and concrete uses of what is proved of them.
use gframework.Base.{ℕ, suc, String, ◌≡◌, refl, ◌==◌, none, some, [], ◌∷◌, if◌then◌else◌}
use gframework.Errors.{sentinel, ok, err}
use gframework.Validator.{other}
use gframework.Httpserver.Handling.{
  new_response, http_error, not_found_error, End, responded, panicked, json, error, Echo, Exchange,
  wrapper, execute_standardized, after_bind, after_validate, after_wrapped, after_delegate, finish,
}
use gframework.Httpserver.Handling.Endpoint.{endpoint, Answered, endpoint-Answered}

-- Requests are numbers: 0 is invalid. The state is the body, and 9 does not bind.
abbrev echo : Echo ℕ ℕ
echo = record {
  bind = λ w. if w == 9 then (err (sentinel "EOF"), w) else (ok w, w);
  validate = λ n. if n == 0 then some (other (sentinel "zero")) else none;
  is_done = λ w. w == 8;
  request_id = λ w. "r1";
  status = λ w. some 0;
}

abbrev no_text : ℕ → String
no_text code = ""

abbrev at : ℕ → Exchange ℕ ℕ
at w = record { world = w; handler = none; body = none }

abbrev delegate : ℕ → ℕ → End ℕ × ℕ
delegate n w =
    if n == 1 then (panicked "boom", w) else (responded (some (new_response (suc n))), suc w)

endpoint-Answered_example :
    Answered no_text
      (λ e. "")
      echo
      "count"
      delegate
      (at 1)
      (endpoint no_text (λ e. "") echo "count" delegate (at 1))
endpoint-Answered_example = endpoint-Answered no_text (λ e. "") echo "count" delegate (at 1)

runs :
    ((endpoint no_text (λ e. "") echo "count" delegate (at 5)).0
      ≡ json 200 (record { request_id = "r1"; payload = 6; pagination = none }))
    × ((endpoint no_text (λ e. "") echo "count" delegate (at 1)).0
        ≡ error (record { code = 500; message = "internal server error" }))
    × ((endpoint no_text (λ e. "") echo "count" delegate (at 8)).0
        ≡ error (record { code = 499; message = "client closed request" }))
    × ((endpoint no_text (λ e. "") echo "count" delegate (at 9)).1 ≡ at 9)
    × (not_found_error no_text (λ e. "") none ("no user" ∷ [])
        ≡ record { code = 404; message = "no user" })
unfolding endpoint not_found_error new_response wrapper after_bind after_validate after_wrapped
    execute_standardized after_delegate finish http_error
runs = (refl, refl, refl, refl, refl)
