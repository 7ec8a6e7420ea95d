-- ===== src/Worker/Runner.antt =====
-- src/worker/runner.py, WorkerRunner: one poll of the queue and the tasks that it processes. The
-- handlers are not part of the model: a handler returns or raises, with the text of its error, and
-- so do the sessions in which a task is marked as completed or as failed.
pub mod Settled
pub mod Fetched
use Prim.Native.String.{String, ◌++◌ as append}
use text.Mathlib.Text.{◌==◌ as str_eq}
use kis_autotrader.Common.{
  ℕ, suc, ◌+◌, ◌%◌, Bool, true, false, Option, none, some, List, [], ◌∷◌, ◌++◌, ◌==◌, if◌then◌else◌,
}
use kis_autotrader.Python.{ok, err}
use kis_autotrader.Worker.Queue.{
  Task, Table, OrderBy, dequeue, mark_completed, mark_failed, cleanup_old_tasks,
}

-- What a handler's `execute` does with a payload: nothing, or the text of the exception.
abbrev pub Handler : Type 0 → Type 0
Handler P = P → Option String

abbrev pub Handlers : Type 0 → Type 0
Handlers P = String → Option (Handler P)

abbrev pub register_handler : {P : Type 0} → String → Handler P → Handlers P → Handlers P
register_handler task_type h hs k = if str_eq k task_type then some h else hs k

abbrev pub unregistered : String → String
unregistered task_type = append "미등록 핸들러: " task_type

-- A telegram message about a dead task: its id and its error.
abbrev pub Notice : Type 0
Notice = ℕ × String

pub record Runner (P : Type 0) : Type 0 where
  pub db : Table P
  pub poll_count : ℕ
  pub notices : List Notice

module _ {P : Type 0} (retry_base_delay : ℕ) (handlers : Handlers P)
    (completing : ℕ → Option String) (recording : ℕ → Bool) where
  -- The `except` branch: the failure is recorded, and a death is reported. The result says whether
  -- an exception leaves the method: that of `mark_failed`, which nothing catches.
  abbrev pub fail_and_report : ℕ → ℕ → String → Runner P → Runner P × Bool
  fail_and_report now id error r =
      elim (mark_failed (recording id) retry_base_delay now id error r.db) [
        | err e ↦ (r, true)
        | ok (is_dead, db') ↦ (
          record r {
            db = db';
            notices = if is_dead then r.notices ++ ((id, error) ∷ []) else r.notices;
          },
          false,
        )
      ]

  -- A task without a handler is marked as failed, and its death is not reported.
  abbrev pub fail_unregistered : ℕ → Task P → Runner P → Runner P × Bool
  fail_unregistered now task r =
      elim (mark_failed (recording task.id) retry_base_delay now task.id
        (unregistered task.task_type) r.db) [
          | err e ↦ (r, true)
          | ok (is_dead, db') ↦ (record r { db = db' }, false)
        ]

  unfoldable pub process_task : ℕ → Task P → Runner P → Runner P × Bool
  process_task now task r = elim (handlers task.task_type) [
    | none ↦ fail_unregistered now task r
    | some handler ↦ elim (handler task.payload) [
      | some error ↦ fail_and_report now task.id error r
      | none ↦ elim (completing task.id) [
        | some error ↦ fail_and_report now task.id error r
        | none ↦ (record r { db = mark_completed now task.id r.db }, false)
      ]
    ]
  ]

  -- The loop over the tasks of a poll, which an exception of `_process_task` ends.
  pub process_all : ℕ → List (Task P) → Runner P → Runner P × Bool
  process_all now [] r = (r, false)
  process_all now (t ∷ ts) r =
      let (r', raised) = process_task now t r in
      let rest = process_all now ts r' in if raised then (r', true) else rest

  abbrev clean_up : ℕ → Runner P → Runner P
  clean_up now r =
      if r.poll_count % 100 == 0 then record r { db = (cleanup_old_tasks now 7 r.db).1 } else r

  -- One round of the loop of `run`; the second time is that of the processing. An exception skips
  -- the rest of the round.
  unfoldable pub poll : OrderBy P → ℕ → ℕ → (ℕ → Bool) → ℕ → Runner P → Runner P
  poll order_by fetched now locked batch_size r =
      let (tasks, db') = dequeue order_by fetched locked batch_size r.db in
      let (r', raised) = process_all now tasks (record r { db = db' }) in
      if raised then r' else clean_up now (record r' { poll_count = suc r'.poll_count })
