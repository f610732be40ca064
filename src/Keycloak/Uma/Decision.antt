-- ===== src/Keycloak/Uma/Decision.antt =====
-- keycloak/uma.go: when a permission is granted.
use gframework.Base.{
  ap, Bool-cases, inl, inr, ℕ, String, ◌≡◌, refl, true, false, ◌||◌, ◌↔◌, Option, none, some,
  str_eq, arith,
}
use gframework.Errors.{GoError, Result, ok, err}
use gframework.Keycloak.Uma.{
  UmaClient, UmaRequest, UmaResponse, Http, decision, uma_request, answered, send, check,
}

-- What the server said, if it was asked.
abbrev pub status_of : Result UmaResponse → Option ℕ
status_of (err e) = none
status_of (ok resp) = some resp.status

module _ {W : Type 0} (http : Http W) (c : UmaClient) where
  decision-granted : (resp : UmaResponse) → (decision resp ≡ ok true) ↔ (resp.status ≡ 200)
  unfolding decision
  decision-granted resp = (λ granted. ground arith, λ status. ground arith)

  answered-granted :
      (answer : Result UmaResponse × W)
      → ((answered http c answer).0 ≡ ok true) ↔ (status_of answer.0 ≡ some 200)
  unfolding answered
  answered-granted (err e, w) = (λ granted. absurd (cc granted), λ asked. absurd (cc asked))
  answered-granted (ok resp, w) = (
    λ granted. ap some ((decision-granted resp).0 granted),
    λ asked. (decision-granted resp).1 (cc asked),
  )

  send-granted :
      (bad : Option GoError) (req : UmaRequest) (w : W)
      → ((send http c bad req w).0 ≡ ok true)
        ↔ ((bad ≡ none) × (status_of (http.perform req w).0 ≡ some 200))
  unfolding send
  send-granted (some e) req w = (λ granted. absurd (cc granted), λ asked. absurd (cc asked.0))
  send-granted none req w =
      let (to, from) = answered-granted (http.perform req w) in
      (λ granted. (refl, to granted), λ asked. from asked.1)

  -- A permission is granted if and only if the token, the resource and the scope are given, the URL of
  -- the token endpoint is one, and the server answers the question for that resource and scope with
  -- status 200; every other answer, and every failure, does not grant it.
  pub check-granted :
      (user_token resource scope : String) (w : W)
      → ((check http c user_token resource scope w).0 ≡ ok true) ↔ (
          (str_eq user_token "" || (str_eq resource "" || str_eq scope "") ≡ false)
          × (http.bad_url c.token_endpoint ≡ none)
          × (status_of (http.perform (uma_request http c user_token resource scope) w).0
              ≡ some 200))
  unfolding check
  check-granted user_token resource scope w =
      let (to, from) =
        send-granted (http.bad_url c.token_endpoint) (uma_request http c user_token resource scope)
          w in
      elim (Bool-cases (str_eq user_token "" || (str_eq resource "" || str_eq scope ""))) [
        | inl missing ↦ rw missing (λ granted. absurd (cc granted), λ asked. absurd (cc asked.0))
        | inr given ↦ rw given (
          λ granted. let (good, said) = to granted in (refl, good, said),
          λ asked. let (all, good, said) = asked in from (good, said),
        )
      ]
