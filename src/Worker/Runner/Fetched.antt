-- ===== src/Worker/Runner/Fetched.antt =====
-- A whole poll: what `dequeue` hands out has rows, so the batch that follows settles it.
use Prim.Native.String.{String}
use kis_autotrader.Common.{
  ℕ, ◌≡◌, sym, ap, Bool, Option, some, List, [], ◌∷◌, map, arith, ◌==◌, if◌then◌else◌, inl, inr,
  Bool-cases, In, All-of_In,
}
use kis_autotrader.Worker.Queue.{Task, Table, OrderBy, find, has_id, start, select_due, dequeue}
use kis_autotrader.Worker.Queue.Fetch.{IsOrderBy, dequeue-started}
use kis_autotrader.Worker.Runner.{Handlers, Runner, process_all}
use kis_autotrader.Worker.Runner.Settled.{IsProcessed, Has, process_all-IsProcessed}

module _ {P : Type 0} where
  find_of_In :
      (i : ℕ) (t : Task P) (rows : List (Task P))
      → In t rows
      → t.id ≡ i
      → (u : Task P) × (find i rows ≡ some u)
  unfolding find
  find_of_In i t [] m e = absurd m
  find_of_In i t (u ∷ rows) (inl q) e = (u, ground arith)
  find_of_In i t (u ∷ rows) (inr m) e =
      let (v, f) = find_of_In i t rows m e in (if u.id == i then u else v, ground arith)

  -- A change of rows that keeps ids keeps the ids known.
  find-map :
      (f : Task P → Task P) (same_id : (t : Task P) → (f t).id ≡ t.id) (i : ℕ)
      (rows : List (Task P)) {u : Task P}
      → find i rows ≡ some u
      → (v : Task P) × (find i (map f rows) ≡ some v)
  unfolding find
  find-map f same_id i [] e = absurd (ground arith)
  find-map f same_id i (t ∷ rows) {u} e = elim (Bool-cases (t.id == i)) [
    | inl q ↦ (f t, rw (same_id t, q))
    | inr q ↦ let (v, g) = find-map f same_id i rows {u = u} (rw q at e) in (v, rw (same_id t, q) g)
  ]

  dequeue-known :
      (order_by : OrderBy P)
      → IsOrderBy order_by
      → (now : ℕ) (locked : ℕ → Bool) (n : ℕ) (db : Table P) (t : Task P)
      → In t (dequeue order_by now locked n db).0
      → Has (λ _. Unit) t.id (dequeue order_by now locked n db).1
  unfolding dequeue
  dequeue-known order_by sorts now locked n db t m =
      let (u, _, row, _, e) = dequeue-started order_by sorts now locked n db t m in
      let chosen = select_due order_by now locked n db.rows in
      let (v, f) = find_of_In t.id u db.rows row (sym (ap (λ (w : Task P). w.id) e)) in
      let (w, g) =
        find-map (λ w. if has_id w.id chosen then start now w else w) (λ w. ground arith) t.id
          db.rows f in
      (w, g, tt)

  -- After a poll has fetched tasks and processed them, whatever the handlers do and whether or not
  -- the completing sessions raise: either none of them is marked as running; or the session of
  -- `mark_failed` raised for one of them, which aborts the batch, and none of the tasks before that
  -- one is marked as running.
  pub dequeue-IsProcessed :
      (base : ℕ) (handlers : Handlers P) (completing : ℕ → Option String) (recording : ℕ → Bool)
      (order_by : OrderBy P)
      → IsOrderBy order_by
      → (fetched now : ℕ) (locked : ℕ → Bool) (n : ℕ) (r : Runner P)
      → let (tasks, db') = dequeue order_by fetched locked n r.db in
        IsProcessed base handlers completing recording tasks
          (process_all base handlers completing recording now tasks (record r { db = db' }))
  dequeue-IsProcessed base handlers completing recording order_by sorts fetched now locked n r =
      let (tasks, db') = dequeue order_by fetched locked n r.db in
      process_all-IsProcessed base handlers completing recording now tasks (record r { db = db' })
        (All-of_In (λ (t : Task P). Has (λ _. Unit) t.id db') tasks
          (dequeue-known order_by sorts fetched locked n r.db))
