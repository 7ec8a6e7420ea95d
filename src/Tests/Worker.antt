-- ===== src/Tests/Worker.antt =====
-- src/worker: a queue of two tasks, fetched one at a time.
use Prim.Native.String.{String}
use text.Mathlib.Text.{◌==◌ as str_eq}
use kis_autotrader.Common.{
  ℕ, ◌≤◌, ◌≡◌, refl, Bool, true, false, Option, some, none, List, [], ◌∷◌, length, arith, inl, ◌⊎◌,
  In, not, ◌==◌, if◌then◌else◌,
}
use kis_autotrader.Common.Int.{pos}
use kis_autotrader.Worker.Queue.{
  TaskStatus, Task, Table, Request, start, dequeue, has_id, key_taken,
}
use kis_autotrader.Worker.Queue.Rows.{IsValid}
use kis_autotrader.Worker.Queue.Valid.{
  Call, enqueues, dequeues, fails, cleans, after_all, after_all-IsValid,
}
use kis_autotrader.Worker.Queue.Fetch.{
  IsWaiting, IsTaken, Precedes, dequeue-In, dequeue-order, dequeue-dequeue,
}
use kis_autotrader.Worker.Queue.Retries.{fail_times, fail_times-status}
use kis_autotrader.Worker.Runner.{Handlers, Runner, process_all}
use kis_autotrader.Worker.Runner.Settled.{IsProcessed}
use kis_autotrader.Worker.Runner.Fetched.{dequeue-IsProcessed}
use kis_autotrader.Tests.Sorting.{sort, insert, sort-IsOrderBy}

abbrev low : Task String
low = record {
  id = 0;
  task_type = "screening";
  payload = "{}";
  status = TaskStatus.pending;
  priority = pos 1;
  idempotency_key = some "k0";
  retry_count = 0;
  max_retries = 3;
  error_message = none;
  scheduled_at = 10;
  started_at = none;
  completed_at = none;
  created_at = 10;
}

abbrev high : Task String
high = record low { id = 1; priority = pos 5; idempotency_key = some "k1" }

abbrev queue : Table String
queue = record { rows = low ∷ high ∷ []; next_id = 2 }

abbrev free : ℕ → Bool
free i = false

abbrev request : Request String
request = record {
  task_type = "screening";
  payload = "{}";
  priority = pos 0;
  idempotency_key = some "k2";
  max_retries = 3;
  scheduled_at = 20;
}

abbrev runner : Runner String
runner = record { db = queue; poll_count = 0; notices = [] }

-- The handler of one type raises on every payload; no other type has one.
abbrev handlers : Handlers String
handlers k = if str_eq k "screening" then some (λ payload. some "timeout") else none

abbrev completing : ℕ → Option String
completing i = none

queue-IsValid : IsValid queue
unfolding has_id key_taken
queue-IsValid = (omega arith, refl, refl, (omega arith, refl, refl, tt))

abbrev calls : List (Call String)
calls =
    enqueues true 20 request ∷ dequeues 30 free 2 ∷ fails true 60 31 1 "timeout" ∷ cleans 40 7 ∷ []

after_all-IsValid_example : IsValid (after_all sort calls queue)
after_all-IsValid_example = after_all-IsValid sort calls queue queue-IsValid

low-IsWaiting : IsWaiting 30 free low
low-IsWaiting = record {
  open_status = inl refl;
  on_time = omega arith;
  tries_left = omega arith;
  free = refl;
}

dequeue-In_example :
    ((u : Task String) × In u (low ∷ high ∷ [])
      × IsWaiting 30 free u
      × IsTaken 30 u (start 30 high))
    × In (start 30 high) (dequeue sort 30 free 1 queue).1.rows
    × (length (dequeue sort 30 free 1 queue).0 ≤ 1)
unfolding dequeue sort insert
dequeue-In_example = dequeue-In sort sort-IsOrderBy 30 free 1 queue (start 30 high) (inl refl)

dequeue-order_example :
    ((v : Task String) × In v (dequeue sort 30 free 1 queue).0 × IsTaken 30 low v)
    ⊎ Precedes (start 30 high) low
unfolding dequeue sort insert
dequeue-order_example =
    dequeue-order sort sort-IsOrderBy 30 free 1 queue (start 30 high) low (inl refl) (inl refl)
      low-IsWaiting

dequeue-dequeue_example : has_id 0 (dequeue sort 30 free 1 queue).0 ≡ false
unfolding dequeue sort insert has_id
dequeue-dequeue_example =
    dequeue-dequeue sort sort-IsOrderBy 30 31 free free 1 2 queue (start 31 low) (inl refl)

fail_times-status_example :
    ((fail_times 60 ((40, "b") ∷ (30, "a") ∷ []) low).status ≡ TaskStatus.failed)
    × ((fail_times 60 ((40, "b") ∷ (30, "a") ∷ []) low).scheduled_at ≡ 160)
fail_times-status_example = fail_times-status 60 40 "b" ((30, "a") ∷ []) low refl

-- The failure of the task 0 cannot be recorded.
abbrev recording : ℕ → Bool
recording i = not (i == 0)

dequeue-IsProcessed_example :
    IsProcessed 60 handlers completing recording (dequeue sort 30 free 2 queue).0 (
      process_all 60 handlers completing recording 31
        (dequeue sort 30 free 2 queue).0
        (record runner { db = (dequeue sort 30 free 2 queue).1 }))
dequeue-IsProcessed_example =
    dequeue-IsProcessed 60 handlers completing recording sort sort-IsOrderBy 30 31 free 2 runner
