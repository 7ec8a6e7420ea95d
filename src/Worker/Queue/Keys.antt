-- ===== src/Worker/Queue/Keys.antt =====
-- Idempotency keys: a key is accepted once.
use Prim.Native.String.{String}
use text.Mathlib.TextPositions.{eq_refl}
use kis_autotrader.Common.{ℕ, ◌≡◌, Bool, true, none, some, [], ◌∷◌, arith}
use kis_autotrader.Worker.Queue.{Table, Request, key_taken, enqueue, new_task}
use kis_autotrader.Worker.Queue.Rows.{key_taken-append}

module _ {P : Type 0} where
  new_key :
      (now : ℕ) (r : Request P) (db : Table P) {k : String}
      → r.idempotency_key ≡ some k
      → key_taken k (new_task db.next_id now r ∷ []) ≡ true
  unfolding key_taken
  new_key now r db {k} e = rw e (rw (eq_refl k))

  -- A request whose key an accepted request had is skipped and changes nothing, at once or later,
  -- with the database up or down.
  pub enqueue-enqueue :
      (now later : ℕ) (ok' : Bool) (r r' : Request P) (db : Table P) {i : ℕ} {k : String}
      → r.idempotency_key ≡ some k
      → r'.idempotency_key ≡ some k
      → (enqueue true now r db).0 ≡ some i
      → let db' = (enqueue true now r db).1 in enqueue ok' later r' db' ≡ (none, db')
  unfolding enqueue
  enqueue-enqueue now later ok' r r' db {k} e e' h =
      ground
        (arith, key_taken-append k db.rows (new_task db.next_id now r ∷ []), new_key now r db e)
