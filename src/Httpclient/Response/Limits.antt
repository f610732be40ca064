-- ===== src/Httpclient/Response/Limits.antt =====
-- httpclient/client.go: which responses are accepted.
use gframework.Base.{
  ℕ, zero, suc, ◌≤◌, ◌<◌, String, ◌≡◌, refl, ◌↔◌, ◌≢◌, ◌⊎◌, inl, inr, true, false, none, some, List,
  [], ◌∷◌, length, take, arith, Bool-cases, ap, wrap_64-suc,
}
use gframework.Errors.{sentinel, ok}
use gframework.Httpclient.Client.{Client}
use gframework.Httpclient.Response.{
  Body, Response, go_error, read_all, read_limited, is_success, Json, decode, read_body, limit_of,
  handle_response,
}

length-take_le : {A : Type 0} (n : ℕ) (xs : List A) → n ≤ length xs → length (take n xs) ≡ n
length-take_le zero xs h = refl
length-take_le (suc n) [] h = absurd (omega arith)
length-take_le (suc n) (x ∷ xs) h = ap suc (length-take_le n xs (omega arith))

-- The size limit `max` lets a body through.
abbrev pub Fits : ℕ → Body → Type 0
Fits max b = (max ≡ 0) ⊎ (length b.bytes ≤ max)

module _ {V : Type 0} (json : Json V) where
  decode-read_body_large :
      (max : ℕ) (b : Body)
      → max < 9223372036854775807
      → 0 < max
      → max < length b.bytes
      → decode json max (read_body json max b)
        ≡ (some (go_error (sentinel "ErrResponseTooLarge")), none)
  unfolding decode read_body read_limited
  decode-read_body_large max b room h k =
      rw (wrap_64-suc max room) (ground (arith, length-take_le (suc max) b.bytes))

  read_body-Fits :
      (max : ℕ) (b : Body)
      → max < 9223372036854775807
      → Fits max b
      → read_body json max b ≡ read_all b
  unfolding read_body read_limited
  read_body-Fits max b room h = rw (wrap_64-suc max room) (ground arith)

  decode-read_all :
      (max : ℕ) (b : Body) (v : V)
      → Fits max b
      → (decode json max (read_all b) ≡ (none, some v))
        ↔ ((b.failure ≡ none) × (json.unmarshal b.bytes ≡ ok v))
  unfolding decode read_all
  decode-read_all max b v h = ground arith

  decode-read_all-Fits :
      (max : ℕ) (b : Body)
      → Fits max b
      → ¬ ((decode json max (read_all b)).0 ≡ some (go_error (sentinel "ErrResponseTooLarge")))
  unfolding decode read_all
  decode-read_all-Fits max b h = ground arith

  Fits-cases : (max : ℕ) (b : Body) → Fits max b ⊎ ((0 < max) × (max < length b.bytes))
  Fits-cases max b = ground arith

  handle_response-decode :
      (c : Client) (resp : Response) (request_id : String)
      → is_success resp.status_code ≡ true
      → let max = limit_of json c.max_response_size in
        handle_response json c true resp request_id ≡ decode json max (read_body json max resp.body)
  unfolding handle_response
  handle_response-decode c resp request_id h = rw h

  handle_response-failure :
      (c : Client) (resp : Response) (request_id : String) {v : V}
      → is_success resp.status_code ≡ false
      → handle_response json c true resp request_id ≢ (none, some v)
  unfolding handle_response
  handle_response-failure c resp request_id h = rw h (λ e. cc)

  -- A response gives the value `v` exactly when its status is a success, its body fits the client's
  -- size limit and arrives whole, and `v` is what the whole body decodes to. The limit, if there is
  -- one, is below the largest `int64`, for which the limit of the reader would overflow.
  pub handle_response-value_iff :
      (c : Client) (resp : Response) (request_id : String) (v : V)
      → limit_of json c.max_response_size < 9223372036854775807
      → (handle_response json c true resp request_id ≡ (none, some v)) ↔ (
          (is_success resp.status_code ≡ true)
          × Fits (limit_of json c.max_response_size) resp.body
          × (resp.body.failure ≡ none)
          × (json.unmarshal resp.body.bytes ≡ ok v))
  handle_response-value_iff c resp request_id v room =
      elim (Bool-cases (is_success resp.status_code)) [
        | inl success ↦ elim (Fits-cases (limit_of json c.max_response_size) resp.body) [
          | inl fits ↦
              rw
                (
                  handle_response-decode c resp request_id success,
                  read_body-Fits _ resp.body room fits,
                )
                (let (to, from) = decode-read_all _ resp.body v fits in
                  (λ e. (success, fits, (to e).0, (to e).1), λ h. from (h.2, h.3)))
          | inr (limited, large) ↦
              rw
                (
                  handle_response-decode c resp request_id success,
                  decode-read_body_large _ resp.body room limited large,
                )
                (λ e. cc, λ h. absurd (omega (arith, h.1)))
        ]
        | inr failure ↦ (λ e. absurd (handle_response-failure c resp request_id failure e), λ h. cc)
      ]

  -- A response of success status whose value is wanted is refused as too large exactly when there is
  -- a size limit and more bytes than that arrive, for a limit below the largest `int64`.
  pub handle_response-too_large_iff :
      (c : Client) (resp : Response) (request_id : String)
      → limit_of json c.max_response_size < 9223372036854775807
      → is_success resp.status_code ≡ true
      → ((handle_response json c true resp request_id).0
          ≡ some (go_error (sentinel "ErrResponseTooLarge")))
        ↔ ((0 < limit_of json c.max_response_size)
            × (limit_of json c.max_response_size < length resp.body.bytes))
  handle_response-too_large_iff c resp request_id room h =
      elim (Fits-cases (limit_of json c.max_response_size) resp.body) [
        | inl fits ↦
            rw (handle_response-decode c resp request_id h, read_body-Fits _ resp.body room fits)
              (λ e. absurd (decode-read_all-Fits _ resp.body fits e), λ k. absurd (omega arith))
        | inr (limited, large) ↦
            rw
              (
                handle_response-decode c resp request_id h,
                decode-read_body_large _ resp.body room limited large,
              )
              (λ e. (limited, large), λ k. refl)
      ]
