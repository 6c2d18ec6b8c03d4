-- ===== src/Examples/Dequeues.antt =====
-- Runs of Dequeue: two workers, a wait, and a connection that fails.
use content_sources_backend.Common.{
  ℕ, refl, Bool, false, none, some, List, String, any, All, arith, ◌+◌, ◌≡◌, ◌≢◌, ◌==◌, ◌∷◌, [],
}
use content_sources_backend.Examples.Tables.{busy, busy-IsWellFormed, loner, ready}
use content_sources_backend.Table.{update}
use content_sources_backend.Queue.Types.{
  Db, Heartbeat, TaskInfo, contains, db_error, delete_snapshots_task,
}
use content_sources_backend.Queue.Transaction.{done, fails}
use content_sources_backend.Queue.Transaction.Runs.{serving}
use content_sources_backend.Queue.Statements.{
  dependencies_of, insert_heartbeat, is_ready, precedes, select_first, start, waits,
}
use content_sources_backend.Queue.Enqueue.{Info}
use content_sources_backend.Queue.Dequeue.{Round, dequeue, dequeue_error, dequeue_maybe, notified}
use content_sources_backend.Queue.Dequeue.Outcomes.{started_db, started_info}
use content_sources_backend.Queue.Dequeue.Loop.{dequeue-waits, dequeue_maybe-distinct}
use content_sources_backend.Queue.Invariant.{IsWellFormed}

abbrev free : ℕ → Bool
free id = false

abbrev types : List String
types = delete_snapshots_task ∷ []

abbrev second_loner : TaskInfo
second_loner = record loner { id = 4 }

-- Two tasks to start.
abbrev pair : Db
pair = record {
  tasks = loner ∷ second_loner ∷ [];
  dependencies = [];
  heartbeats = [];
  notifications = [];
}

pair-IsWellFormed : IsWellFormed pair
pair-IsWellFormed = record {
  distinct = (refl, (refl, tt));
  consistent = (((refl, refl), refl), (((refl, refl), refl), tt));
  beats = tt;
}

abbrev after_first : Db
after_first = started_db 8 50 loner pair

abbrev first_info : Info
first_info = started_info 8 50 loner pair

abbrev after_second : Db
after_second = started_db 9 60 second_loner after_first

abbrev second_info : Info
second_info = started_info 9 60 second_loner after_first

first_taken :
    dequeue_maybe 8 50 free types pair (serving (5 + 0) db_error) ≡ (done first_info, after_first)
unfolding update dequeue_maybe select_first is_ready waits contains precedes start insert_heartbeat
    dependencies_of
first_taken = refl

second_taken :
    dequeue_maybe 9 60 free types after_first (serving (5 + 0) db_error)
    ≡ (done second_info, after_second)
unfolding update dequeue_maybe select_first is_ready waits contains precedes start insert_heartbeat
    dependencies_of
second_taken = refl

fresh : any (λ (h : Heartbeat). h.token == 9) after_first.heartbeats ≡ false
fresh = refl

-- A round in which no task is ready, one after it, and one whose connection fails.
abbrev idle_round : Round
idle_round = record { db = busy; now = 50; locked = free; link = serving 5 db_error }

abbrev next_round : Round
next_round = record { db = ready; now = 70; locked = free; link = serving 5 db_error }

abbrev cut_round : Round
cut_round = record { db = busy; now = 50; locked = free; link = serving 0 db_error }

idle : All (λ u. is_ready free types busy u ≡ false) busy.tasks
unfolding is_ready waits contains
idle = (refl, (refl, tt))

cut : dequeue 8 types cut_round [] ≡ some (fails db_error, busy)
unfolding dequeue dequeue_maybe dequeue_error
cut = refl

dequeue_maybe-distinct_example : first_info.task.id ≢ second_info.task.id
dequeue_maybe-distinct_example =
    dequeue_maybe-distinct 8 9 50 60 free free types types pair after_first after_second first_info
      second_info 0 0 db_error db_error pair-IsWellFormed (ground arith) refl (ground arith) fresh
      first_taken second_taken

dequeue-waits_example :
    (dequeue 8 types idle_round [] ≡ none)
    × (dequeue 8 types idle_round (notified next_round ∷ ([])) ≡ dequeue 8 types next_round ([]))
dequeue-waits_example =
    dequeue-waits 8 types idle_round next_round [] 0 db_error busy-IsWellFormed (ground arith) refl
      idle refl
