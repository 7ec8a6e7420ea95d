-- ===== src/Worker/Queue/Rows.antt =====
-- The table stays well formed: ids are unique and come from the sequence, keys are unique.
use Prim.Native.String.{String}
use text.Mathlib.TextEquality.{eq_iff}
use kis_autotrader.Common.{
  ℕ, suc, ◌<◌, ◌≡◌, refl, Bool, false, ◌||◌, Option, none, some, List, [], ◌∷◌, ◌++◌, map, arith,
  keep, Bool-cases, ◌⊎◌, inl, inr,
}
use kis_autotrader.Worker.Queue.{Task, Table, key_taken, refused, has_id, same_key}

refused_nil : (P : Type 0) (o : Option String) → refused {P = P} o [] ≡ false
unfolding key_taken
refused_nil P none = refl
refused_nil P (some j) = refl

module _ {P : Type 0} where
  abbrev pub AreRows : ℕ → List (Task P) → Type 0
  AreRows next [] = Unit
  AreRows next (t ∷ ts) =
      (t.id < next)
      × (has_id t.id ts ≡ false)
      × (refused t.idempotency_key ts ≡ false)
      × AreRows next ts

  abbrev pub IsValid : Table P → Type 0
  IsValid db = AreRows db.next_id db.rows

  -- A change of rows that leaves ids and keys alone.
  pub record KeepsKeys (f : Task P → Task P) : Type 0 where
    pub same_id : (t : Task P) → (f t).id ≡ t.id
    pub same_idempotency_key : (t : Task P) → (f t).idempotency_key ≡ t.idempotency_key

  module _ (f : Task P → Task P) (k : KeepsKeys f) where
    pub has_id-map : (i : ℕ) (ts : List (Task P)) → has_id i (map f ts) ≡ has_id i ts
    unfolding has_id
    has_id-map i [] = refl
    has_id-map i (t ∷ ts) = rw (k.same_id t, has_id-map i ts)

    key_taken-map : (j : String) (ts : List (Task P)) → key_taken j (map f ts) ≡ key_taken j ts
    unfolding key_taken
    key_taken-map j [] = refl
    key_taken-map j (t ∷ ts) = rw (k.same_idempotency_key t, key_taken-map j ts)

    refused-map : (o : Option String) (ts : List (Task P)) → refused o (map f ts) ≡ refused o ts
    refused-map none ts = refl
    refused-map (some j) ts = key_taken-map j ts

    pub map-AreRows : (next : ℕ) (ts : List (Task P)) → AreRows next ts → AreRows next (map f ts)
    map-AreRows next [] h = tt
    map-AreRows next (t ∷ ts) (below, alone, key, rest) = (
      rw (k.same_id t) below,
      rw (k.same_id t, has_id-map t.id ts) alone,
      rw (k.same_idempotency_key t, refused-map t.idempotency_key ts) key,
      map-AreRows next ts rest,
    )

  module _ (p : Task P → Bool) where
    has_id-keep : (i : ℕ) (ts : List (Task P)) → has_id i ts ≡ false → has_id i (keep p ts) ≡ false
    unfolding has_id
    has_id-keep i [] h = refl
    has_id-keep i (t ∷ ts) h = ground (arith, has_id-keep i ts)

    key_taken-keep :
        (j : String) (ts : List (Task P)) → key_taken j ts ≡ false → key_taken j (keep p ts) ≡ false
    unfolding key_taken
    key_taken-keep j [] h = refl
    key_taken-keep j (t ∷ ts) h = ground (arith, key_taken-keep j ts)

    refused-keep :
        (o : Option String) (ts : List (Task P))
        → refused o ts ≡ false
        → refused o (keep p ts) ≡ false
    refused-keep none ts h = refl
    refused-keep (some j) ts h = key_taken-keep j ts h

    pub keep-AreRows : (next : ℕ) (ts : List (Task P)) → AreRows next ts → AreRows next (keep p ts)
    keep-AreRows next [] h = tt
    keep-AreRows next (t ∷ ts) (below, alone, key, rest) = elim (Bool-cases (p t)) [
      | inl e ↦ rw e (
        below,
        has_id-keep t.id ts alone,
        refused-keep t.idempotency_key ts key,
        keep-AreRows next ts rest,
      )
      | inr e ↦ rw e (keep-AreRows next ts rest)
    ]

  has_id-append :
      (i : ℕ) (ts us : List (Task P)) → has_id i (ts ++ us) ≡ (has_id i ts || has_id i us)
  unfolding has_id
  has_id-append i [] us = refl
  has_id-append i (t ∷ ts) us = ground (arith, has_id-append i ts us)

  pub key_taken-append :
      (j : String) (ts us : List (Task P))
      → key_taken j (ts ++ us) ≡ (key_taken j ts || key_taken j us)
  unfolding key_taken
  key_taken-append j [] us = refl
  key_taken-append j (t ∷ ts) us = ground (arith, key_taken-append j ts us)

  refused-cons :
      (o : Option String) (t : Task P) (ts : List (Task P))
      → refused o (t ∷ ts) ≡ false
      → ((o ≡ none) ⊎ ((k : String) × (o ≡ some k) × (same_key k t.idempotency_key ≡ false)))
        × (refused o ts ≡ false)
  unfolding key_taken
  refused-cons none t ts h = (inl refl, refl)
  refused-cons (some k) t ts h = (inr (k, refl, ground arith), ground arith)

  -- A row's key stays unique beside a new row whose key no row has.
  refused-append :
      (old new : Option String) (u : Task P) (ts : List (Task P))
      → u.idempotency_key ≡ new
      → refused old ts ≡ false
      → (new ≡ none) ⊎ ((k : String) × (new ≡ some k) × (same_key k old ≡ false))
      → refused old (ts ++ (u ∷ [])) ≡ false
  unfolding key_taken
  refused-append none new u ts e h n = refl
  refused-append (some j) new u ts e h (inl q) = rw (key_taken-append j ts (u ∷ []), h, e, q)
  refused-append (some j) new u ts e h (inr (k, q, other)) =
      rw (key_taken-append j ts (u ∷ []), h, e, q) (ground (arith, eq_iff j k, eq_iff k j))

  -- A new row with a fresh id and a key that no row has.
  pub append-AreRows :
      (next : ℕ) (u : Task P) (ts : List (Task P))
      → AreRows next ts
      → u.id ≡ next
      → refused u.idempotency_key ts ≡ false
      → AreRows (suc next) (ts ++ (u ∷ []))
  unfolding has_id key_taken
  append-AreRows next u [] h e key = (omega arith, refl, refused_nil P u.idempotency_key, tt)
  append-AreRows next u (t ∷ ts) (below, alone, taken, rest) e key =
      let (other, others) = refused-cons u.idempotency_key t ts key in
      (
        omega arith,
        rw (has_id-append t.id ts (u ∷ []), alone) (ground arith),
        refused-append t.idempotency_key u.idempotency_key u ts refl taken other,
        append-AreRows next u ts rest e others,
      )
