-- ===== src/Worker/Queue/Fetch.antt =====
-- What `dequeue` hands out.
use kis_autotrader.Common.{
  ℕ, ◌≤◌, ◌≡◌, refl, ap, ◌∙◌, Bool, true, false, ◌⊎◌, inl, inr, List, [], ◌∷◌, some, map, sym,
  subst, ◌<◌, map-In, if◌then◌else◌, keep, Bool-cases, In, In-take, In-keep, keep-In, In-map,
  In-take-drop, IsSortedBy, take-drop-IsSortedBy, length, length-map, length-take, arith,
}
use kis_autotrader.Common.Int.{◌≤ℤ◌}
use kis_autotrader.Worker.Queue.{
  TaskStatus, Task, Table, Column, OrderBy, is_open, is_due, has_id, start, dequeue_columns,
  select_due, dequeue,
}
use kis_autotrader.Worker.Queue.Rows.{has_id-map}

module _ {P : Type 0} where
  -- The order of rows by columns, the first one that differs deciding.
  abbrev pub PrecedesBy : List (Column P) → Task P → Task P → Type 0
  PrecedesBy [] t u = Unit
  PrecedesBy (Column.desc f ∷ columns) t u = (f u ≤ℤ f t) × (f t ≡ f u → PrecedesBy columns t u)
  PrecedesBy (Column.asc f ∷ columns) t u = (f t ≤ℤ f u) × (f t ≡ f u → PrecedesBy columns t u)

-- What the database promises of an ORDER BY, whatever its columns are: the rows that it is given,
-- and in that order.
pub record IsOrderBy {P : Type 0} (order_by : OrderBy P) : Type 0 where
  pub sound :
      (columns : List (Column P)) (t : Task P) (ts : List (Task P))
      → In t (order_by columns ts)
      → In t ts
  pub complete :
      (columns : List (Column P)) (t : Task P) (ts : List (Task P))
      → In t ts
      → In t (order_by columns ts)
  pub sorted :
      (columns : List (Column P)) (ts : List (Task P))
      → IsSortedBy (PrecedesBy columns) (order_by columns ts)

-- A higher priority comes first, and an earlier time among equal ones.
pub record Precedes {P : Type 0} (t u : Task P) : Type 0 where
  pub by_priority : u.priority ≤ℤ t.priority
  pub by_time : t.priority ≡ u.priority → t.scheduled_at ≤ u.scheduled_at

-- A row that a worker may take: it waits or has failed before, its time has come, it has tries
-- left, and no other worker holds it.
pub record IsWaiting {P : Type 0} (now : ℕ) (locked : ℕ → Bool) (t : Task P) : Type 0 where
  pub open_status : (t.status ≡ TaskStatus.pending) ⊎ (t.status ≡ TaskStatus.failed)
  pub on_time : t.scheduled_at ≤ now
  pub tries_left : t.retry_count < t.max_retries
  pub free : locked t.id ≡ false

-- A task that was taken at a time: it is the row that it was, but runs since then.
pub record IsTaken {P : Type 0} (now : ℕ) (u t : Task P) : Type 0 where
  pub running : t.status ≡ TaskStatus.running
  pub since : t.started_at ≡ some now
  pub rest : t ≡ record u { status = t.status; started_at = t.started_at }

is_open-cases :
    (s : TaskStatus) → is_open s ≡ true → (s ≡ TaskStatus.pending) ⊎ (s ≡ TaskStatus.failed)
is_open-cases TaskStatus.pending h = inl refl
is_open-cases TaskStatus.failed h = inr refl
is_open-cases TaskStatus.running h = absurd (ground arith)
is_open-cases TaskStatus.completed h = absurd (ground arith)
is_open-cases TaskStatus.dead h = absurd (ground arith)

open_status-is_open :
    (s : TaskStatus) → (s ≡ TaskStatus.pending) ⊎ (s ≡ TaskStatus.failed) → is_open s ≡ true
open_status-is_open s (inl e) = rw e refl
open_status-is_open s (inr e) = rw e refl

module _ {P : Type 0} where
  is_due-IsWaiting :
      (now : ℕ) (locked : ℕ → Bool) (t : Task P)
      → is_due now locked t ≡ true
      → IsWaiting now locked t
  is_due-IsWaiting now locked t h = record {
    open_status = is_open-cases t.status (ground arith);
    on_time = ground arith;
    tries_left = ground arith;
    free = ground arith;
  }

  IsWaiting-is_due :
      (now : ℕ) (locked : ℕ → Bool) (t : Task P)
      → IsWaiting now locked t
      → is_due now locked t ≡ true
  IsWaiting-is_due now locked t w =
      ground (arith, open_status-is_open t.status w.open_status, w.on_time, w.tries_left, w.free)

  has_id_of_In : (t : Task P) (ts : List (Task P)) → In t ts → has_id t.id ts ≡ true
  unfolding has_id
  has_id_of_In t [] m = absurd m
  has_id_of_In t (u ∷ ts) (inl e) = ground (arith, ap (λ (w : Task P). w.id) e)
  has_id_of_In t (u ∷ ts) (inr m) = ground (arith, has_id_of_In t ts m)

module _ {P : Type 0} (order_by : OrderBy P) (sorts : IsOrderBy order_by) where
  select_due-In :
      (now : ℕ) (locked : ℕ → Bool) (n : ℕ) (t : Task P) (rows : List (Task P))
      → In t (select_due order_by now locked n rows)
      → In t rows × (is_due now locked t ≡ true)
  select_due-In now locked n t rows h =
      let due = keep (is_due now locked) rows in
      In-keep (is_due now locked) t rows
        (sorts.sound dequeue_columns t due (In-take n t (order_by dequeue_columns due) h))

  pub dequeue-started :
      (now : ℕ) (locked : ℕ → Bool) (n : ℕ) (db : Table P) (t : Task P)
      → In t (dequeue order_by now locked n db).0
      → (u : Task P) × In u (select_due order_by now locked n db.rows)
        × In u db.rows
        × (is_due now locked u ≡ true)
        × (t ≡ start now u)
  unfolding dequeue
  dequeue-started now locked n db t h =
      let (u, m, e) = In-map (start now) t (select_due order_by now locked n db.rows) h in
      let (row, due) = select_due-In now locked n u db.rows m in (u, m, row, due, e)

  -- Every task handed out comes of a row that waited for its turn, whose time had come, which had
  -- tries left and which no other worker held. It is that row, now RUNNING and started at `now`, and
  -- so it stands in the table behind the call. No more tasks are handed out than asked for.
  pub dequeue-In :
      (now : ℕ) (locked : ℕ → Bool) (n : ℕ) (db : Table P) (t : Task P)
      → In t (dequeue order_by now locked n db).0
      → ((u : Task P) × In u db.rows × IsWaiting now locked u × IsTaken now u t)
        × In t (dequeue order_by now locked n db).1.rows
        × (length (dequeue order_by now locked n db).0 ≤ n)
  unfolding dequeue
  dequeue-In now locked n db t h =
      let (u, m, row, due, e) = dequeue-started now locked n db t h in
      let chosen = select_due order_by now locked n db.rows in
      let changed = λ (w : Task P). if has_id w.id chosen then start now w else w in
      let here : changed u ≡ t = rw (has_id_of_In u chosen m) (sym e) in
      (
        (
          u,
          row,
          is_due-IsWaiting now locked u due,
          record {
            running = ap (λ (w : Task P). w.status) e;
            since = ap (λ (w : Task P). w.started_at) e;
            rest = rw e refl;
          },
        ),
        subst (λ w. In w (map changed db.rows)) here (map-In changed u db.rows row),
        omega (
          arith,
          length-map (start now) chosen,
          length-take n (order_by dequeue_columns (keep (is_due now locked) db.rows)),
        ),
      )

  dequeue_columns-Precedes : (t u : Task P) → PrecedesBy dequeue_columns t u → Precedes t u
  dequeue_columns-Precedes t u h = record {
    by_priority = h.0;
    by_time = λ e. ground (arith, (h.1 e).0);
  }

  -- A row that waits for its turn, whose time has come, which has tries left and which no other
  -- worker holds is handed out, or it comes after every task that is: its priority is at most
  -- theirs, and its time not before theirs where the priorities are equal.
  pub dequeue-order :
      (now : ℕ) (locked : ℕ → Bool) (n : ℕ) (db : Table P) (t u : Task P)
      → In t (dequeue order_by now locked n db).0
      → In u db.rows
      → IsWaiting now locked u
      → ((v : Task P) × In v (dequeue order_by now locked n db).0 × IsTaken now u v) ⊎ Precedes t u
  unfolding dequeue
  dequeue-order now locked n db t u h row waits =
      let (v, m, _, _, e) = dequeue-started now locked n db t h in
      let ts = keep (is_due now locked) db.rows in
      let due = IsWaiting-is_due now locked u waits in
      elim (In-take-drop n u (order_by dequeue_columns ts)
        (sorts.complete dequeue_columns u ts (keep-In (is_due now locked) u db.rows row due))) [
          | inl taken ↦ inl (
            start now u,
            map-In (start now) u (select_due order_by now locked n db.rows) taken,
            record { running = refl; since = refl; rest = refl },
          )
          | inr left ↦
              let first = dequeue_columns-Precedes v u (
                take-drop-IsSortedBy (PrecedesBy dequeue_columns) n v u
                  (order_by dequeue_columns ts) (sorts.sorted dequeue_columns ts) m left) in
              inr (
                subst (λ w. Precedes w u) (sym e)
                  (record { by_priority = first.by_priority; by_time = first.by_time }))
        ]

  -- A row that is due after `chosen` were started has none of their ids.
  due_after_start :
      (now later : ℕ) (locked : ℕ → Bool) (chosen : List (Task P)) (u v : Task P)
      → u ≡ (if has_id v.id chosen then start now v else v)
      → is_due later locked u ≡ true
      → has_id u.id chosen ≡ false
  due_after_start now later locked chosen u v e due = elim (Bool-cases (has_id v.id chosen)) [
    | inl taken ↦
        let started : u ≡ start now v = e ∙ rw taken in
        let closed : false ≡ true = rw started at due in cc
    | inr free ↦ let same : u ≡ v = e ∙ rw free in rw same free
  ]

  -- A second call, at any time and by any worker, hands out no task that the first one did, if
  -- nothing else has changed the table between the two.
  pub dequeue-dequeue :
      (now later : ℕ) (locked locked' : ℕ → Bool) (n n' : ℕ) (db : Table P) (t : Task P)
      → In t (dequeue order_by later locked' n' (dequeue order_by now locked n db).1).0
      → has_id t.id (dequeue order_by now locked n db).0 ≡ false
  unfolding dequeue
  dequeue-dequeue now later locked locked' n n' db t h =
      let chosen = select_due order_by now locked n db.rows in
      let (u, _, row, due, e) =
        dequeue-started later locked' n' (dequeue order_by now locked n db).1 t h in
      let (v, _, f) = In-map (λ w. if has_id w.id chosen then start now w else w) u db.rows row in
      has_id-map (start now) (record { same_id = λ w. refl; same_idempotency_key = λ w. refl }) t.id
        chosen
      ∙ rw (ap (λ (w : Task P). w.id) e) (due_after_start now later locked' chosen u v f due)
