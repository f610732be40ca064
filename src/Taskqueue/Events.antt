-- ===== src/Taskqueue/Events.antt =====
-- taskqueue/taskqueue.go: what the events of a run say of one task.
use gframework.Base.{ℕ, ◌+◌, String, Option, none, some, List, [], ◌∷◌, ◌++◌, str_eq, if◌then◌else◌}
use gframework.Errors.{GoError}
use gframework.Taskqueue.{
  Event, popped, tracked, returned, delivered, slept, taken, executed, untracked, payload_deleted,
  moved,
}

-- How many events of a kind concern the task `id`; the kind gives the task of an event, if it is of
-- that kind.
abbrev pub is_for : String → Option String → ℕ
is_for id none = 0
is_for id (some j) = if str_eq j id then 1 else 0

abbrev pub tally : (Event → Option String) → String → List Event → ℕ
tally kind id [] = 0
tally kind id (e ∷ es) = is_for id (kind e) + tally kind id es

abbrev pub pop_of : Event → Option String
pop_of (popped id) = some id
pop_of e = none

-- A successful ZAdd.
abbrev pub tracked_as : Event → Option String
tracked_as (tracked id none) = some id
tracked_as e = none

abbrev pub give_back : Event → Option String
give_back (returned id e) = some id
give_back e = none

abbrev pub delivery : Event → Option String
delivery (delivered id) = some id
delivery e = none

abbrev pub taking : Event → Option String
taking (taken id) = some id
taking e = none

abbrev pub execution : Event → Option String
execution (executed id e) = some id
execution e = none

abbrev pub untracking : Event → Option String
untracking (untracked id e) = some id
untracking e = none

-- The attempts to move a stale task, oldest first, with their errors.
abbrev pub moves : List Event → List (String × Option GoError)
moves [] = []
moves (moved id e ∷ es) = moves es ++ (id, e) ∷ []
moves (popped id ∷ es) = moves es
moves (tracked id e ∷ es) = moves es
moves (returned id e ∷ es) = moves es
moves (delivered id ∷ es) = moves es
moves (slept d ∷ es) = moves es
moves (taken id ∷ es) = moves es
moves (executed id e ∷ es) = moves es
moves (untracked id e ∷ es) = moves es
moves (payload_deleted id e ∷ es) = moves es
