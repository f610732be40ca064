-- ===== src/Taskqueue/Recovery.antt =====
-- taskqueue/taskqueue.go: the recovery of stale tasks.
use gframework.Base.{
  ℕ, suc, ◌+◌, String, ◌≡◌, refl, sym, ap, ◌∙◌, inl, inr, false, Option, none, some, List, [], ◌∷◌,
  ◌++◌, append_assoc, append-nil, arith, Bool-cases, ℤ, leb_ℤ,
}
use gframework.Errors.{GoError, Result, ok, err}
use gframework.Taskqueue.{
  Queue, Env, moved, Logged, note, zrem, lpush, move_counted, recover_all, recover_found,
  recover_stale,
}
use gframework.Taskqueue.Events.{moves}

-- How many of the attempts succeeded.
abbrev pub successes : List (String × Option GoError) → ℕ
successes [] = 0
successes ((id, none) ∷ ms) = suc (successes ms)
successes ((id, some e) ∷ ms) = successes ms

abbrev pub tried : List (String × Option GoError) → List String
tried [] = []
tried ((id, e) ∷ ms) = id ∷ tried ms

zero_plus : (n : ℕ) → 0 + n ≡ n
zero_plus n = omega arith

abbrev number_of : Result ℕ → ℕ
number_of (ok n) = n
number_of (err e) = 0

module _ {W : Type 0} (env : Env W) (q : Queue) where
  successes-move_counted :
      (id : String) (e : Option GoError) (n : ℕ) (ms : List (String × Option GoError))
      → move_counted env q e n + successes ms ≡ n + successes ((id, e) ∷ ms)
  unfolding move_counted
  successes-move_counted id none n ms = omega arith
  successes-move_counted id (some e) n ms = refl

  recover_all-moves :
      (ids : List String) (n : ℕ) (s : Logged W)
      → let (k, s') = recover_all env q ids n s in
        (ms : List (String × Option GoError)) × (moves s'.log ≡ moves s.log ++ ms)
        × (tried ms ≡ ids)
        × (k ≡ n + successes ms)
  unfolding recover_all move_counted
  recover_all-moves [] n s = ([], rw append-nil refl, refl, omega arith)
  recover_all-moves (id ∷ ids) n s =
      let commands = zrem q.processing_key id ∷ lpush q.queue_key (id ∷ []) ∷ [] in
      let (e, w) = env.pipelined commands s.world in
      let (ms, logged, all_tried, counted) =
        recover_all-moves ids (move_counted env q e n) (note env q (moved id e) w s) in
      (
        (id, e) ∷ ms,
        rw append_assoc at logged,
        ap (λ rest. id ∷ rest) all_tried,
        counted ∙ successes-move_counted id e n ms,
      )

  recover_found-moves :
      (found : Result (List String)) (w : W) (n : ℕ) (s : Logged W)
      → recover_found env q found (record { world = w; log = [] }) ≡ (ok n, s)
      → (found ≡ ok (tried (moves s.log))) × (n ≡ successes (moves s.log))
  unfolding recover_found
  recover_found-moves (err e) w n s h = absurd (ground arith)
  recover_found-moves (ok ids) w n s h =
      let (ms, logged, all_tried, counted) =
        recover_all-moves ids 0 (record { world = w; log = [] }) in
      let same : (recover_all env q ids 0 (record { world = w; log = [] })).1 ≡ s =
        ap (λ p. p.1) h in
      let number : (recover_all env q ids 0 (record { world = w; log = [] })).0 ≡ n =
        ap (λ p. number_of p.0) h in
      let all_moves : moves s.log ≡ ms = ap (λ t. moves t.log) (sym same) ∙ logged in
      (
        ap ok (sym all_tried ∙ ap tried (sym all_moves)),
        sym number ∙ counted ∙ zero_plus (successes ms) ∙ ap successes (sym all_moves),
      )

  -- A call that returns a number was made with an age above the time limit of a task; it tried to move
  -- exactly the tasks that Redis named as stale, in that order and each once, and the number is how many
  -- of these moves succeeded.
  pub recover_stale-moves :
      (max_age : ℤ) (w : W) (n : ℕ) (s : Logged W)
      → recover_stale env q max_age (record { world = w; log = [] }) ≡ (ok n, s)
      → let (cutoff, w1) = env.before max_age w in
        (leb_ℤ max_age q.exec_timeout ≡ false)
        × ((env.range_to q.processing_key cutoff w1).0 ≡ ok (tried (moves s.log)))
        × (n ≡ successes (moves s.log))
  unfolding recover_stale recover_found
  recover_stale-moves max_age w n s h = elim (Bool-cases (leb_ℤ max_age q.exec_timeout)) [
    | inl small ↦ absurd (ground arith)
    | inr old ↦
        let (all_tried, counted) = recover_found-moves _ _ n s (rw old at h) in
        (old, all_tried, counted)
  ]
