-- ===== src/Httpserver/Handling/Endpoint.antt =====
-- httpserver/wrapper.go with httpserver/call.go: an endpoint as the repository's services make it.
use gframework.Base.{
  ℕ, String, ◌≡◌, refl, sym, true, false, Bool-cases, inl, inr, Option, none, some,
}
use mathlib.Core.Path.{subst}
use gframework.Errors.{GoError, Result, ok, err}
use gframework.Validator.{ValidationError, Invalid}
use gframework.Httpserver.Handling.{
  HttpError, HandlerResponse, ApiResponse, http_error, bad_request_error, End, responded, failed,
  panicked, Reply, value, refused, Answer, json, error, Echo, Exchange, validation_message,
  status_or_ok, finish, after_delegate, execute_standardized, after_wrapped, after_validate,
  after_bind, wrapper,
}

module _ {W T D : Type 0} (status_text : ℕ → String) (text_of : GoError → String) (echo : Echo W T)
    (name : String) (delegate : T → W → End D × W) where
  unfoldable pub endpoint : Exchange W T → Answer (ApiResponse D) × Exchange W T
  endpoint = wrapper status_text text_of echo (execute_standardized echo name delegate)

  -- The answer to a handler's end that left the state `w`.
  pub data AnswerTo (w : W) : End D → Answer (ApiResponse D) → Type 0 where
    to_response :
        (r : HandlerResponse D)
        → AnswerTo w (responded (some r)) (
            json (status_or_ok (echo.status w)) (record {
              request_id = echo.request_id w;
              payload = r.payload;
              pagination = r.pagination;
            }))
    to_error : (e : HttpError) → AnswerTo w (failed e) (error e)
    to_nothing : (e : HttpError) → e.code ≡ 500 → AnswerTo w (responded none) (error e)
    to_panic : (v : String) (e : HttpError) → e.code ≡ 500 → AnswerTo w (panicked v) (error e)

  -- How a request goes from `s`.
  pub data Answered (s : Exchange W T) : Answer (ApiResponse D) × Exchange W T → Type 0 where
    unbound :
        (e : GoError) (w : W)
        → echo.bind s.world ≡ (err e, w)
        → Answered s (
          error (record { code = 400; message = "Invalid request body" }),
          record s { world = w },
        )
    invalid :
        (req : T) (v : Invalid ValidationError) (w : W)
        → echo.bind s.world ≡ (ok req, w)
        → echo.validate req ≡ some v
        → Answered s
            (error (record { code = 400; message = validation_message v }), record s { world = w })
    gone :
        (req : T) (w : W)
        → echo.bind s.world ≡ (ok req, w)
        → echo.validate req ≡ none
        → echo.is_done w ≡ true
        → Answered s (
          error (record { code = 499; message = "client closed request" }),
          record { world = w; handler = some name; body = some req },
        )
    ran :
        (req : T) (w : W) (a : Answer (ApiResponse D))
        → echo.bind s.world ≡ (ok req, w)
        → echo.validate req ≡ none
        → echo.is_done w ≡ false
        → AnswerTo (delegate req w).1 (delegate req w).0 a
        → Answered s
            (a, record { world = (delegate req w).1; handler = some name; body = some req })

  finish-AnswerTo :
      (w : W) (end : End D) (s : Exchange W T)
      → AnswerTo w end
          (after_wrapped status_text text_of echo
            (execute_standardized echo name delegate)
            (finish echo (echo.request_id w) end, record s { world = w })).0
  unfolding after_wrapped finish
  finish-AnswerTo w (responded none) s = to_nothing _ refl
  finish-AnswerTo w (responded (some r)) s = to_response r
  finish-AnswerTo w (failed e) s = to_error e
  finish-AnswerTo w (panicked v) s = to_panic v _ refl

  finish-world :
      (w : W) (reply : Reply (ApiResponse D)) (s : Exchange W T)
      → (after_wrapped status_text text_of echo
          (execute_standardized echo name delegate)
          (reply, s)).1
        ≡ s
  unfolding after_wrapped
  finish-world w (value a) s = refl
  finish-world w (refused e) s = refl

  ran-Answered :
      (s : Exchange W T) (req : T) (w : W)
      → echo.bind s.world ≡ (ok req, w)
      → echo.validate req ≡ none
      → echo.is_done w ≡ false
      → Answered s (
          after_wrapped status_text text_of echo (execute_standardized echo name delegate) (
            after_delegate echo
              (delegate req w)
              (record { world = w; handler = some name; body = some req })))
  unfolding after_delegate
  ran-Answered s req w bound valid here =
      let (end, w') = delegate req w in
      let t : Exchange W T = record { world = w'; handler = some name; body = some req } in
      subst
        (λ u. Answered s (
          (after_wrapped status_text text_of echo (execute_standardized echo name delegate)
              (finish echo (echo.request_id w') end, t)).0,
          u,
        ))
        (sym (finish-world w' (finish echo (echo.request_id w') end) t))
        (ran req w _ bound valid here (finish-AnswerTo w' end t))

  after_validate-Answered :
      (s : Exchange W T) (req : T) (w : W) (v : Option (Invalid ValidationError))
      → echo.bind s.world ≡ (ok req, w)
      → echo.validate req ≡ v
      → Answered s (
          after_validate status_text text_of echo
            (execute_standardized echo name delegate)
            req
            v
            (record s { world = w }))
  unfolding after_validate execute_standardized http_error bad_request_error after_wrapped
  after_validate-Answered s req w (some v) bound checked = invalid req v w bound checked
  after_validate-Answered s req w none bound checked = elim (Bool-cases (echo.is_done w)) [
    | inl done ↦ rw done (gone req w bound checked done)
    | inr here ↦ rw here (ran-Answered s req w bound checked here)
  ]

  after_bind-Answered :
      (s : Exchange W T) (answer : Result T × W)
      → echo.bind s.world ≡ answer
      → Answered s
          (after_bind status_text text_of echo (execute_standardized echo name delegate) answer s)
  unfolding after_bind http_error bad_request_error
  after_bind-Answered s (err e, w) bound = unbound e w bound
  after_bind-Answered s (ok req, w) bound =
      after_validate-Answered s req w (echo.validate req) bound refl

  -- Every request to an endpoint is answered. A body that cannot be bound, and one that breaks the
  -- rules, is answered with 400, and a request whose client is gone with 499; the handler does not run
  -- then. In every other case the handler runs once, on a request that is valid: its response is
  -- answered as JSON with the identifier of the request, its error as that error, and a panic or a
  -- missing response with 500.
  pub endpoint-Answered : (s : Exchange W T) → Answered s (endpoint s)
  unfolding endpoint wrapper
  endpoint-Answered s = after_bind-Answered s (echo.bind s.world) refl
