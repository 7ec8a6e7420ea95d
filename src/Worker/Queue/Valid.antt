-- ===== src/Worker/Queue/Valid.antt =====
-- Every operation keeps the table well formed, so it is after any run of the program.
use Prim.Native.String.{String}
use kis_autotrader.Common.{ℕ, refl, Bool, List, [], ◌∷◌, arith, ◌==◌, if◌then◌else◌}
use kis_autotrader.Worker.Queue.{
  Task, Table, OrderBy, Request, has_id, new_task, enqueue, dequeue, start, select_due,
  mark_completed, complete, mark_failed, fail_task, update_row, cleanup_old_tasks,
}
use kis_autotrader.Worker.Queue.Retries.{written}
use kis_autotrader.Worker.Queue.Rows.{
  AreRows, IsValid, KeepsKeys, map-AreRows, keep-AreRows, append-AreRows,
}

-- A call of the service, by this process or another, with the time that it is made at.
pub data Call (P : Type 0) : Type 0 where
  enqueues : Bool → ℕ → Request P → Call P
  dequeues : ℕ → (ℕ → Bool) → ℕ → Call P
  completes : ℕ → ℕ → Call P
  fails : Bool → ℕ → ℕ → ℕ → String → Call P
  cleans : ℕ → ℕ → Call P

module _ {P : Type 0} where
  pub enqueue-IsValid :
      (session_ok : Bool) (now : ℕ) (r : Request P) (db : Table P)
      → IsValid db
      → IsValid (enqueue session_ok now r db).1
  unfolding enqueue
  enqueue-IsValid session_ok now r db h =
      ground (arith, append-AreRows db.next_id (new_task db.next_id now r) db.rows h refl)

  pub dequeue-IsValid :
      (order_by : OrderBy P) (now : ℕ) (locked : ℕ → Bool) (n : ℕ) (db : Table P)
      → IsValid db
      → IsValid (dequeue order_by now locked n db).1
  unfolding dequeue
  dequeue-IsValid order_by now locked n db h =
      let chosen = select_due order_by now locked n db.rows in
      map-AreRows (λ t. if has_id t.id chosen then start now t else t)
        (record { same_id = λ t. ground arith; same_idempotency_key = λ t. ground arith })
        db.next_id db.rows h

  pub update_row-AreRows :
      (i : ℕ) (f : Task P → Task P) (next : ℕ) (ts : List (Task P))
      → KeepsKeys f
      → AreRows next ts
      → AreRows next (update_row i f ts)
  update_row-AreRows i f next ts k h =
      map-AreRows (λ t. if t.id == i then f t else t)
        (record {
          same_id = λ t. ground (arith, k.same_id t);
          same_idempotency_key = λ t. ground (arith, k.same_idempotency_key t);
        })
        next ts h

  pub mark_completed-IsValid :
      (now i : ℕ) (db : Table P) → IsValid db → IsValid (mark_completed now i db)
  unfolding mark_completed
  mark_completed-IsValid now i db h =
      update_row-AreRows i (complete now) db.next_id db.rows
        (record { same_id = λ t. refl; same_idempotency_key = λ t. refl }) h

  pub mark_failed-IsValid :
      (session_ok : Bool) (base now i : ℕ) (error : String) (db : Table P)
      → IsValid db
      → IsValid (written db (mark_failed session_ok base now i error db))
  unfolding mark_failed
  mark_failed-IsValid session_ok base now i error db h = ground (
    arith,
    update_row-AreRows i (fail_task base now error) db.next_id db.rows
        (record { same_id = λ t. ground arith; same_idempotency_key = λ t. ground arith }) h,
  )

  pub cleanup_old_tasks-IsValid :
      (now days : ℕ) (db : Table P) → IsValid db → IsValid (cleanup_old_tasks now days db).1
  unfolding cleanup_old_tasks
  cleanup_old_tasks-IsValid now days db h = keep-AreRows _ db.next_id db.rows h

  module _ (order_by : OrderBy P) where
    pub after : Call P → Table P → Table P
    after (enqueues session_ok now r) db = (enqueue session_ok now r db).1
    after (dequeues now locked n) db = (dequeue order_by now locked n db).1
    after (completes now i) db = mark_completed now i db
    after (fails session_ok base now i error) db =
        written db (mark_failed session_ok base now i error db)
    after (cleans now days) db = (cleanup_old_tasks now days db).1

    pub after_all : List (Call P) → Table P → Table P
    after_all [] db = db
    after_all (c ∷ cs) db = after_all cs (after c db)

    after-IsValid : (c : Call P) (db : Table P) → IsValid db → IsValid (after c db)
    unfolding after
    after-IsValid (enqueues session_ok now r) db h = enqueue-IsValid session_ok now r db h
    after-IsValid (dequeues now locked n) db h = dequeue-IsValid order_by now locked n db h
    after-IsValid (completes now i) db h = mark_completed-IsValid now i db h
    after-IsValid (fails session_ok base now i error) db h =
        mark_failed-IsValid session_ok base now i error db h
    after-IsValid (cleans now days) db h = cleanup_old_tasks-IsValid now days db h

    -- Whatever calls are made, by any number of workers, ids and idempotency keys stay unique and
    -- every id is one that the sequence has passed.
    pub after_all-IsValid :
        (cs : List (Call P)) (db : Table P) → IsValid db → IsValid (after_all cs db)
    unfolding after_all
    after_all-IsValid [] db h = h
    after_all-IsValid (c ∷ cs) db h = after_all-IsValid cs (after c db) (after-IsValid c db h)
