-- ===== src/Worker/Runner/Settled.antt =====
-- What a batch leaves of the tasks that a poll has fetched.
use Prim.Native.String.{String}
use kis_autotrader.Common.{
  ℕ, ◌≡◌, refl, subst, sym, ◌∙◌, Bool, true, false, Option, some, List, [], ◌∷◌, ◌++◌, ap, arith,
  ◌==◌, ==_iff, if◌then◌else◌, Bool-cases, Option-cases, inl, inr, ◌⊎◌, All,
}
use kis_autotrader.Worker.Queue.{
  TaskStatus, Task, Table, find, mark_completed, mark_failed, complete, fail_task,
}
use kis_autotrader.Worker.Queue.Retries.{find-update_row, mark_failed_lem, mark_failed-err}
use kis_autotrader.Python.{Result, ok, err, Error}
use kis_autotrader.Worker.Runner.{
  Handlers, Runner, unregistered, fail_and_report, fail_unregistered, process_task, process_all,
}

abbrev is_running : TaskStatus → Bool
is_running TaskStatus.running = true
is_running _ = false

Result-cases :
    {A : Type 0} → (x : Result A) → ((a : A) × (x ≡ ok a)) ⊎ ((raised : Error) × (x ≡ err raised))
Result-cases (ok a) = inl (a, refl)
Result-cases (err raised) = inr (raised, refl)

module _ {P : Type 0} where
  -- The table has a row with this id of which `K` holds.
  abbrev pub Has : (Task P → Type 0) → ℕ → Table P → Type 0
  Has K i db = (t : Task P) × (find i db.rows ≡ some t) × K t

  abbrev IsQuiet : Task P → Type 0
  IsQuiet t = is_running t.status ≡ false

  -- The table has a row with this id, and its task is not running.
  abbrev pub IsSettled : ℕ → Table P → Type 0
  IsSettled i db = (t : Task P) × (find i db.rows ≡ some t) × (is_running t.status ≡ false)

  mark_completed-find :
      (now i j : ℕ) (db : Table P) (t : Task P)
      → find i db.rows ≡ some t
      → find j (mark_completed now i db).rows
        ≡ (if j == i then some (complete now t) else find j db.rows)
  unfolding mark_completed
  mark_completed-find now i j db t e = find-update_row (complete now) (λ u. refl) i j db.rows t e

  -- A change of one row to one of which `K` holds.
  settle :
      (K : Task P → Type 0) (i j : ℕ) (db db' : Table P) (t' : Task P)
      → find j db'.rows ≡ (if j == i then some t' else find j db.rows)
      → K t'
      → (j ≡ i) ⊎ Has K j db
      → Has K j db'
  settle K i j db db' t' f quiet (inl q) = (t', f ∙ rw ((==_iff j i).1 q), quiet)
  settle K i j db db' t' f quiet (inr (u, g, h)) = elim (Bool-cases (j == i)) [
    | inl q ↦ (t', f ∙ rw q, quiet)
    | inr q ↦ (u, f ∙ rw q g, h)
  ]

  module _ (base : ℕ) (handlers : Handlers P) (completing : ℕ → Option String)
      (recording : ℕ → Bool) where
    -- The three ends of a try: the session of `mark_failed` raises, and nothing is changed; the
    -- task is marked as failed; or it is marked as completed.
    abbrev Ends : ℕ → Task P → Runner P → Runner P × Bool → Type 0
    Ends now task r (r', raised) =
        ((raised ≡ true) × (recording task.id ≡ false) × (r'.db ≡ r.db))
        ⊎ ((raised ≡ false)
            × (error : String) × (is_dead : Bool) × (mark_failed (recording task.id) base now
                  task.id error r.db
                ≡ ok (is_dead, r'.db)))
        ⊎ ((raised ≡ false) × (r'.db ≡ mark_completed now task.id r.db))

    reported-Ends :
        (now : ℕ) (task : Task P) (error : String) (r : Runner P)
        → Ends now task r (fail_and_report base handlers completing recording now task.id error r)
    reported-Ends now task error r =
        elim (Result-cases (mark_failed (recording task.id) base now task.id error r.db)) [
          | inl ((is_dead, db'), e) ↦ rw (fail_and_report, e) (inr (inl (refl, error, is_dead, e)))
          | inr (raised, e) ↦
              rw (fail_and_report, e)
                (inl (
                  refl,
                  mark_failed-err (recording task.id) base now task.id error r.db raised e,
                  refl,
                ))
        ]

    unregistered-Ends :
        (now : ℕ) (task : Task P) (r : Runner P)
        → Ends now task r (fail_unregistered base handlers completing recording now task r)
    unregistered-Ends now task r =
        let error = unregistered task.task_type in
        elim (Result-cases (mark_failed (recording task.id) base now task.id error r.db)) [
          | inl ((is_dead, db'), e) ↦
              rw (fail_unregistered, e) (inr (inl (refl, error, is_dead, e)))
          | inr (raised, e) ↦
              rw (fail_unregistered, e)
                (inl (
                  refl,
                  mark_failed-err (recording task.id) base now task.id error r.db raised e,
                  refl,
                ))
        ]

    process_task-Ends :
        (now : ℕ) (task : Task P) (r : Runner P)
        → Ends now task r (process_task base handlers completing recording now task r)
    unfolding process_task
    process_task-Ends now task r = elim (Option-cases (handlers task.task_type)) [
      | inl unknown ↦ rw (process_task, unknown) (unregistered-Ends now task r)
      | inr (handler, h) ↦
          rw (process_task, h)
            (elim (Option-cases (handler task.payload)) [
              | inr (error, e) ↦ rw e (reported-Ends now task error r)
              | inl fine ↦ rw fine (elim (Option-cases (completing task.id)) [
                | inr (error, e) ↦ rw e (reported-Ends now task error r)
                | inl done ↦ rw done (inr (inr (refl, refl)))
              ])
            ])
    ]

    -- What holds of every task whose try has ended stays true of the rows, and holds of the row of
    -- the task processed if no exception left its processing.
    process_task-Has :
        (K : Task P → Type 0) (now j : ℕ) (task t : Task P) (r : Runner P)
        → ((u : Task P) → K (complete now u))
        → ((error : String) (u : Task P) → K (fail_task base now error u))
        → find task.id r.db.rows ≡ some t
        → ((j ≡ task.id) × ((process_task base handlers completing recording now task r).1 ≡ false))
          ⊎ Has K j r.db
        → Has K j (process_task base handlers completing recording now task r).0.db
    process_task-Has K now j task t r done failing e h = elim (process_task-Ends now task r) [
      | inl (raised, _, q) ↦
          subst (Has K j) (sym q)
            (elim h [ inl (_, quiet) ↦ absurd (ground (arith, raised, quiet)) | inr k ↦ k ])
      | inr (inl (_, error, is_dead, q)) ↦
          let db' = (process_task base handlers completing recording now task r).0.db in
          settle K task.id j r.db db' (fail_task base now error t)
            (mark_failed_lem (recording task.id) base now task.id error r.db db' is_dead t j e q)
            (failing error t) (elim h [ inl (same, _) ↦ inl same | inr k ↦ inr k ])
      | inr (inr (_, q)) ↦ subst (Has K j) (sym q) (
          settle K task.id j r.db (mark_completed now task.id r.db) (complete now t)
            (mark_completed-find now task.id j r.db t e) (done t)
            (elim h [ inl (same, _) ↦ inl same | inr k ↦ inr k ]))
    ]

    quiet : (now : ℕ) (error : String) (u : Task P) → IsQuiet (fail_task base now error u)
    quiet now error u = ground arith

    -- The tasks of a list all have rows.
    abbrev pub AreKnown : List (Task P) → Table P → Type 0
    AreKnown ts db = All (λ (t : Task P). Has (λ _. Unit) t.id db) ts

    process_task-AreKnown :
        (now : ℕ) (task t : Task P) (r : Runner P) (ts : List (Task P))
        → find task.id r.db.rows ≡ some t
        → AreKnown ts r.db
        → AreKnown ts (process_task base handlers completing recording now task r).0.db
    process_task-AreKnown now task t r [] e h = tt
    process_task-AreKnown now task t r (u ∷ ts) e h = (
      process_task-Has (λ _. Unit) now u.id task t r (λ _. tt) (λ _ _. tt) e (inr h.0),
      process_task-AreKnown now task t r ts e h.1,
    )

    process_all-keeps :
        (now j : ℕ) (ts : List (Task P)) (r : Runner P)
        → AreKnown ts r.db
        → IsSettled j r.db
        → IsSettled j (process_all base handlers completing recording now ts r).0.db
    unfolding process_all
    process_all-keeps now j [] r h k = k
    process_all-keeps now j (t ∷ ts) r ((u, e, _), rest) k =
        let step = process_task base handlers completing recording now t r in
        let kept = process_task-Has IsQuiet now j t u r (λ _. refl) (quiet now) e (inr k) in
        elim (Bool-cases step.1) [
          | inl raised ↦ rw raised kept
          | inr fine ↦
              rw fine
                (process_all-keeps now j ts step.0 (process_task-AreKnown now t u r ts e rest) kept)
        ]

    -- The batch was processed to its end, and none of its tasks is running; or it was aborted at a
    -- task whose failure could not be recorded, and none of the tasks before that one is running.
    abbrev pub IsProcessed : List (Task P) → Runner P × Bool → Type 0
    IsProcessed ts (r, raised) =
        ((raised ≡ false) × All (λ (t : Task P). IsSettled t.id r.db) ts)
        ⊎ ((raised ≡ true)
            × (done : List (Task P)) × (t : Task P) × (rest : List (Task P)) × (ts
                ≡ done ++ (t ∷ rest))
            × (recording t.id ≡ false)
            × All (λ (u : Task P). IsSettled u.id r.db) done)

    cons-IsProcessed :
        (t : Task P) (ts : List (Task P)) (end : Runner P × Bool)
        → IsSettled t.id end.0.db
        → IsProcessed ts end
        → IsProcessed (t ∷ ts) end
    cons-IsProcessed t ts (r, raised) here (inl (q, all)) = inl (q, (here, all))
    cons-IsProcessed t ts (r, raised) here (inr (q, done, v, later, split, f, all)) =
        inr (q, t ∷ done, v, later, ap (λ us. t ∷ us) split, f, (here, all))

    pub process_all-IsProcessed :
        (now : ℕ) (ts : List (Task P)) (r : Runner P)
        → AreKnown ts r.db
        → IsProcessed ts (process_all base handlers completing recording now ts r)
    unfolding process_all
    process_all-IsProcessed now [] r h = inl (refl, tt)
    process_all-IsProcessed now (t ∷ ts) r ((u, e, _), rest) =
        let step = process_task base handlers completing recording now t r in
        let known = process_task-AreKnown now t u r ts e rest in
        elim (Bool-cases step.1) [
          | inl raised ↦
              rw raised (inr (refl, [], t, ts, refl, raised-recording now t r raised, tt))
          | inr fine ↦
              let here = process_all-keeps now t.id ts step.0 known (
                process_task-Has IsQuiet now t.id t u r (λ _. refl) (quiet now) e
                  (inl (refl, fine))) in
              let same : process_all base handlers completing recording now (t ∷ ts) r
                  ≡ process_all base handlers completing recording now ts step.0 =
                rw fine refl in
              subst (IsProcessed (t ∷ ts)) (sym same) (
                cons-IsProcessed t ts (process_all base handlers completing recording now ts step.0)
                  here (process_all-IsProcessed now ts step.0 known))
        ]
      where
        raised-recording :
            (now : ℕ) (t : Task P) (r : Runner P)
            → (process_task base handlers completing recording now t r).1 ≡ true
            → recording t.id ≡ false
        raised-recording now t r raised = elim (process_task-Ends now t r) [
          | inl (_, f, _) ↦ f
          | inr (inl (fine, _, _, _)) ↦ absurd (ground (arith, raised, fine))
          | inr (inr (fine, _)) ↦ absurd (ground (arith, raised, fine))
        ]
