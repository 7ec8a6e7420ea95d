-- ===== src/Worker/Queue.antt =====
-- src/worker/queue.py, TaskQueueService over the table TaskQueue of src/db/models.py. The table is
-- the list of its rows, in the order of their ids; a session that raises is rolled back. Times are
-- seconds. The database sorts: `order_by` is what it does for the
-- columns of an ORDER BY, and `IsOrderBy` says what it promises for any columns.
pub mod Rows
pub mod Valid
pub mod Fetch
pub mod Retries
pub mod Keys
use Prim.Native.String.{String}
use text.Mathlib.Text.{◌==◌ as str_eq}
use kis_autotrader.Common.{
  ℕ, zero, suc, ◌+◌, ◌-◌, ◌*◌, ◌^◌, Bool, true, false, not, ◌&&◌, ◌||◌, Option, none, some, List,
  [], ◌∷◌, ◌++◌, map, ltb, leb, ◌==◌, if◌then◌else◌, length, take, keep,
}
use kis_autotrader.Common.Int.{ℤ, pos}
use kis_autotrader.Python.{is_some, Result, ok, err, other}

pub data TaskStatus : Type 0 where
  pending running completed failed dead : TaskStatus

pub record Task (P : Type 0) : Type 0 where
  pub id : ℕ
  pub task_type : String
  pub payload : P
  pub status : TaskStatus
  pub priority : ℤ
  pub idempotency_key : Option String
  pub retry_count : ℕ
  pub max_retries : ℕ
  pub error_message : Option String
  pub scheduled_at : ℕ
  pub started_at : Option ℕ
  pub completed_at : Option ℕ
  pub created_at : ℕ

-- `next_id` is the sequence behind the primary key.
pub record Table (P : Type 0) : Type 0 where
  pub rows : List (Task P)
  pub next_id : ℕ

-- The arguments of `enqueue`, with the defaults of the settings and the clock filled in.
pub record Request (P : Type 0) : Type 0 where
  pub task_type : String
  pub payload : P
  pub priority : ℤ
  pub idempotency_key : Option String
  pub max_retries : ℕ
  pub scheduled_at : ℕ

abbrev pub same_key : String → Option String → Bool
same_key k none = false
same_key k (some j) = str_eq j k

-- Statuses in `status.in_([PENDING, FAILED])` and `status.in_([COMPLETED, DEAD])`.
abbrev pub is_open : TaskStatus → Bool
is_open TaskStatus.pending = true
is_open TaskStatus.failed = true
is_open _ = false

abbrev pub is_closed : TaskStatus → Bool
is_closed TaskStatus.completed = true
is_closed TaskStatus.dead = true
is_closed _ = false

-- A column of an ORDER BY, and what the database makes of such columns.
pub data Column (P : Type 0) : Type 0 where
  desc : (Task P → ℤ) → Column P
  asc : (Task P → ℤ) → Column P

abbrev pub OrderBy : Type 0 → Type 0
OrderBy P = List (Column P) → List (Task P) → List (Task P)

module _ {P : Type 0} where
  -- Whether a row has this key.
  unfoldable pub key_taken : String → List (Task P) → Bool
  key_taken k [] = false
  key_taken k (t ∷ ts) = same_key k t.idempotency_key || key_taken k ts

  -- A key that is given is refused if a row has it: by the query if it is not empty, by the
  -- column's UNIQUE if it is.
  abbrev refused : Option String → List (Task P) → Bool
  refused none rows = false
  refused (some k) rows = key_taken k rows

  abbrev pub new_task : ℕ → ℕ → Request P → Task P
  new_task id now r = record {
    id = id;
    task_type = r.task_type;
    payload = r.payload;
    status = TaskStatus.pending;
    priority = r.priority;
    idempotency_key = r.idempotency_key;
    retry_count = 0;
    max_retries = r.max_retries;
    error_message = none;
    scheduled_at = r.scheduled_at;
    started_at = none;
    completed_at = none;
    created_at = now;
  }

  -- `session_ok` is false where the database raises: the exception is logged and None returned.
  unfoldable pub enqueue : Bool → ℕ → Request P → Table P → Option ℕ × Table P
  unfolding key_taken
  enqueue session_ok now r db =
      if not session_ok
      then (none, db)
      else if refused r.idempotency_key db.rows
      then (none, db)
      else (
        some db.next_id,
        record { rows = db.rows ++ (new_task db.next_id now r ∷ []); next_id = suc db.next_id },
      )

  -- The WHERE of `dequeue`, with the rows that another worker has locked left out (SKIP LOCKED).
  abbrev pub is_due : ℕ → (ℕ → Bool) → Task P → Bool
  is_due now locked t =
      is_open t.status
      && leb t.scheduled_at now
      && ltb t.retry_count t.max_retries
      && not (locked t.id)

  abbrev pub start : ℕ → Task P → Task P
  start now t = record t { status = TaskStatus.running; started_at = some now }

  unfoldable pub has_id : ℕ → List (Task P) → Bool
  has_id i [] = false
  has_id i (t ∷ ts) = t.id == i || has_id i ts

  -- The ORDER BY of `dequeue`
  abbrev pub dequeue_columns : List (Column P)
  dequeue_columns =
      Column.desc (λ (t : Task P). t.priority)
      ∷ Column.asc (λ (t : Task P). pos t.scheduled_at)
      ∷ []

  -- The rows that a query with this WHERE, ORDER BY and LIMIT returns.
  abbrev pub select_due : OrderBy P → ℕ → (ℕ → Bool) → ℕ → List (Task P) → List (Task P)
  select_due order_by now locked batch_size rows =
      take batch_size (order_by dequeue_columns (keep (is_due now locked) rows))

  unfoldable pub dequeue : OrderBy P → ℕ → (ℕ → Bool) → ℕ → Table P → List (Task P) × Table P
  unfolding has_id
  dequeue order_by now locked batch_size db =
      let chosen = select_due order_by now locked batch_size db.rows in
      (
        map (start now) chosen,
        record db { rows = map (λ t. if has_id t.id chosen then start now t else t) db.rows },
      )

  -- `UPDATE … WHERE id = task_id`, and a change of the row that a SELECT by id found.
  abbrev pub update_row : ℕ → (Task P → Task P) → List (Task P) → List (Task P)
  update_row i f rows = map (λ t. if t.id == i then f t else t) rows

  abbrev pub complete : ℕ → Task P → Task P
  complete now t = record t {
    status = TaskStatus.completed;
    completed_at = some now;
    error_message = none;
  }

  unfoldable pub mark_completed : ℕ → ℕ → Table P → Table P
  mark_completed now task_id db = record db { rows = update_row task_id (complete now) db.rows }

  -- The change of one row in `mark_failed`; `error` is already cut to 1000 characters.
  abbrev pub fail_task : ℕ → ℕ → String → Task P → Task P
  fail_task retry_base_delay now error t =
      let retry_count = suc t.retry_count in
      if leb t.max_retries retry_count
      then record t {
        retry_count = retry_count;
        error_message = some error;
        status = TaskStatus.dead;
      }
      else record t {
        retry_count = retry_count;
        error_message = some error;
        status = TaskStatus.failed;
        scheduled_at = now + retry_base_delay * 2 ^ (retry_count - 1);
      }

  unfoldable pub find : ℕ → List (Task P) → Option (Task P)
  find i [] = none
  find i (t ∷ ts) = if t.id == i then some t else find i ts

  -- `session_ok` is false where the session raises, which the method does not catch. The result
  -- says whether the task is now dead; an unknown id changes nothing.
  unfoldable pub mark_failed : Bool → ℕ → ℕ → ℕ → String → Table P → Result (Bool × Table P)
  unfolding find
  mark_failed session_ok retry_base_delay now task_id error db =
      if not session_ok then err other else elim (find task_id db.rows) [
        | none ↦ ok (false, db)
        | some t ↦ ok (
          leb t.max_retries (suc t.retry_count),
          record db { rows = update_row task_id (fail_task retry_base_delay now error) db.rows },
        )
      ]

  -- The number of rows deleted, and the table without them.
  unfoldable pub cleanup_old_tasks : ℕ → ℕ → Table P → ℕ × Table P
  cleanup_old_tasks now days db =
      let cutoff = now - days * 86_400 in
      let old = λ (t : Task P). is_closed t.status && ltb t.created_at cutoff in
      (length (keep old db.rows), record db { rows = keep (λ t. not (old t)) db.rows })
