-- ===== src/Worker/Queue/Retries.antt =====
-- The retry machine of one task, and what a cleanup deletes.
use Prim.Native.String.{String}
use kis_autotrader.Common.{
  ap, ℕ, suc, ◌+◌, ◌-◌, ◌*◌, ◌^◌, ◌≤◌, ◌≡◌, refl, false, not, List, [], ◌∷◌, some, arith, ◌==◌,
  ==_iff, leb, if◌then◌else◌, length, length-keep, Bool-cases, inl, inr, ◌⊎◌, ◌≢◌, In, keep-In,
  ◌&&◌, ltb, Bool, true, Option-cases, sym, ◌∙◌,
}
use kis_autotrader.Python.{Result, ok, err, Error}
use kis_autotrader.Worker.Queue.{
  TaskStatus, Task, Table, is_closed, fail_task, find, mark_failed, update_row, cleanup_old_tasks,
}

module _ {P : Type 0} where
  module _ (f : Task P → Task P) (same_id : (t : Task P) → (f t).id ≡ t.id) where
    find-update_row_ne :
        (i j : ℕ) (rows : List (Task P)) → j ≢ i → find j (update_row i f rows) ≡ find j rows
    unfolding find
    find-update_row_ne i j [] ne = refl
    find-update_row_ne i j (u ∷ rows) ne = ground (arith, same_id u, find-update_row_ne i j rows ne)

    find-update_row_self :
        (i : ℕ) (rows : List (Task P)) (t : Task P)
        → find i rows ≡ some t
        → find i (update_row i f rows) ≡ some (f t)
    unfolding find
    find-update_row_self i [] t e = cc
    find-update_row_self i (u ∷ rows) t e = ground (arith, same_id u, find-update_row_self i rows t)

    -- The row of an id after one row was changed.
    pub find-update_row :
        (i j : ℕ) (rows : List (Task P)) (t : Task P)
        → find i rows ≡ some t
        → find j (update_row i f rows) ≡ (if j == i then some (f t) else find j rows)
    find-update_row i j rows t e = elim (Bool-cases (j == i)) [
      | inl q ↦
          let same : j ≡ i = (==_iff j i).0 q in rw q (rw same (find-update_row_self i rows t e))
      | inr q ↦ rw q (find-update_row_ne i j rows (ground arith))
    ]

module _ {P : Type 0} (base : ℕ) where
  fail_task-status :
      (now : ℕ) (error : String) (t : Task P) (tries limit : ℕ)
      → t.retry_count ≡ tries
      → t.max_retries ≡ limit
      → let t' = fail_task base now error t in
        (t'.status ≡ (if leb limit (suc tries) then TaskStatus.dead else TaskStatus.failed))
        × (t'.scheduled_at
            ≡ (if leb limit (suc tries) then t.scheduled_at else now + base * 2 ^ tries))
  fail_task-status now error t tries limit p q =
      let exponent : suc t.retry_count - 1 ≡ tries = omega arith in
      ground (arith, ap (λ (k : ℕ). 2 ^ k) exponent)

  -- A task whose handler fails at each of the times `at`, newest first.
  pub fail_times : List (ℕ × String) → Task P → Task P
  fail_times [] t = t
  fail_times ((now, error) ∷ earlier) t = fail_task base now error (fail_times earlier t)

  pub retry_count-fail_times :
      (fs : List (ℕ × String)) (t : Task P)
      → ((fail_times fs t).retry_count ≡ t.retry_count + length fs)
        × ((fail_times fs t).max_retries ≡ t.max_retries)
  unfolding fail_times
  retry_count-fail_times [] t = omega arith
  retry_count-fail_times ((now, error) ∷ earlier) t =
      ground (arith, retry_count-fail_times earlier t)

  -- A task that is tried again after each failure is dead from its `max_retries`-th failure on and
  -- waits for another try before: the n-th failure puts it off by `base * 2 ^ (n - 1)` seconds.
  pub fail_times-status :
      (now : ℕ) (error : String) (earlier : List (ℕ × String)) (t : Task P)
      → t.retry_count ≡ 0
      → let n = suc (length earlier) in
        let t' = fail_times ((now, error) ∷ earlier) t in
        (t'.status ≡ (if leb t.max_retries n then TaskStatus.dead else TaskStatus.failed))
        × (t'.scheduled_at ≡ (
            if leb t.max_retries n
            then (fail_times earlier t).scheduled_at
            else now + base * 2 ^ length earlier))
  unfolding fail_times
  fail_times-status now error earlier t fresh =
      let (count, limit) = retry_count-fail_times earlier t in
      let tries : (fail_times earlier t).retry_count ≡ length earlier = omega arith in
      fail_task-status now error (fail_times earlier t) (length earlier) t.max_retries tries limit

-- The table behind a session, or the one before it.
abbrev pub written : {A P : Type 0} → Table P → Result (A × Table P) → Table P
written db (ok (result, db')) = db'
written db (err e) = db

module _ {P : Type 0} where
  -- Where its session commits, `mark_failed` changes the row with the id alone.
  pub mark_failed_lem :
      (session_ok : Bool) (base now i : ℕ) (error : String) (db db' : Table P) (is_dead : Bool)
      (t : Task P) (j : ℕ)
      → find i db.rows ≡ some t
      → mark_failed session_ok base now i error db ≡ ok (is_dead, db')
      → find j db'.rows ≡ (if j == i then some (fail_task base now error t) else find j db.rows)
  unfolding mark_failed
  mark_failed_lem false base now i error db db' is_dead t j e h = absurd (ground arith)
  mark_failed_lem true base now i error db db' is_dead t j e h =
      let same : mark_failed true base now i error db
          ≡ ok (
            leb t.max_retries (suc t.retry_count),
            record db { rows = update_row i (fail_task base now error) db.rows },
          ) =
        rw (mark_failed, e) refl in
      let changed : db' ≡ record db { rows = update_row i (fail_task base now error) db.rows } =
        ap (written db) (sym h ∙ same) in
      ap (λ (d : Table P). find j d.rows) changed
      ∙ find-update_row (fail_task base now error) (λ u. ground arith) i j db.rows t e

  -- It raises only where its session does.
  pub mark_failed-err :
      (session_ok : Bool) (base now i : ℕ) (error : String) (db : Table P) (raised : Error)
      → mark_failed session_ok base now i error db ≡ err raised
      → session_ok ≡ false
  unfolding mark_failed
  mark_failed-err false base now i error db raised h = refl
  mark_failed-err true base now i error db raised h = elim (Option-cases (find i db.rows)) [
    | inl e ↦ absurd (ground (arith, e))
    | inr (t, e) ↦ absurd (ground (arith, e))
  ]

  -- A cleanup deletes as many rows as it reports, and none that is open or young.
  pub cleanup_old_tasks_lem :
      (now days : ℕ) (db : Table P) (t : Task P)
      → In t db.rows
      → (is_closed t.status ≡ false) ⊎ (now ≤ t.created_at + days * 86_400)
      → let (n, db') = cleanup_old_tasks now days db in
        (n + length db'.rows ≡ length db.rows) × In t db'.rows
  unfolding cleanup_old_tasks
  cleanup_old_tasks_lem now days db t m young =
      let old = λ (u : Task P). is_closed u.status && ltb u.created_at (now - days * 86_400) in
      (length-keep old db.rows, keep-In (λ u. not (old u)) t db.rows m (ground arith))
