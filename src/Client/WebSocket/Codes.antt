-- ===== src/Client/WebSocket/Codes.antt =====
-- The lists of subscribed stocks, and the steps of the manager that no stock is added in.
use Prim.Native.String.{String}
use text.Mathlib.Text.{◌==◌ as str_eq}
use kis_autotrader.Common.{
  ◌≤◌, ◌≡◌, refl, Bool, true, false, ◌||◌, none, some, List, [], ◌∷◌, ◌++◌, arith, length, inl, inr,
  Bool-cases, if◌then◌else◌,
}
use kis_autotrader.Common.Texts.{eq_symm}
use kis_autotrader.Client.WebSocket.{
  KisWebSocketManager, Outcome, max_subscriptions, subscribed, discard, is_disconnected, send,
  registered, released, connect, release_all, close_connection, disconnect, and_then, on_error,
}

abbrev pub IsUnique : List String → Type 0
IsUnique [] = Unit
IsUnique (c ∷ cs) = (subscribed c cs ≡ false) × IsUnique cs

-- No stock is subscribed twice, and there are 41 at most.
abbrev pub IsWithin : List String → Type 0
IsWithin codes = IsUnique codes × (length codes ≤ max_subscriptions)

pub subscribed-snoc :
    (c d : String) (cs : List String)
    → subscribed c (cs ++ (d ∷ [])) ≡ (subscribed c cs || str_eq d c)
subscribed-snoc c d [] = ground arith
subscribed-snoc c d (e ∷ cs) = ground (arith, subscribed-snoc c d cs)

pub snoc-IsUnique :
    (c : String) (cs : List String)
    → subscribed c cs ≡ false
    → IsUnique cs
    → IsUnique (cs ++ (c ∷ []))
snoc-IsUnique c [] h u = (refl, tt)
snoc-IsUnique c (d ∷ cs) h (f, u) =
    (ground (arith, subscribed-snoc d c cs, eq_symm c d), snoc-IsUnique c cs (ground arith) u)

subscribed-discard :
    (c d : String) (cs : List String)
    → subscribed d cs ≡ false
    → subscribed d (discard c cs) ≡ false
subscribed-discard c d [] h = h
subscribed-discard c d (e ∷ cs) h = ground (arith, subscribed-discard c d cs)

pub discard-IsWithin :
    (c : String) (cs : List String)
    → IsUnique cs
    → IsUnique (discard c cs) × (length (discard c cs) ≤ length cs)
discard-IsWithin c [] u = (tt, omega arith)
discard-IsWithin c (d ∷ cs) (f, u) =
    let (v, n) = discard-IsWithin c cs u in
    elim (Bool-cases (str_eq d c)) [
      | inl e ↦ rw e (v, omega arith)
      | inr e ↦ rw e ((subscribed-discard c d cs f, v), omega arith)
    ]

module _ {F : Type 0} where
  pub send_subscriptions :
      (answers : Bool) (code : String) (m : KisWebSocketManager F)
      → ((send answers (released code) m).0.subscriptions ≡ m.subscriptions)
        × ((send answers (registered code) m).0.subscriptions ≡ m.subscriptions)
  send_subscriptions answers code m = ground arith

  release_all-subscriptions :
      (answers : String → Bool) (codes : List String) (m : KisWebSocketManager F)
      → (release_all answers codes m).0.subscriptions ≡ m.subscriptions
  release_all-subscriptions answers [] m = refl
  release_all-subscriptions answers (c ∷ codes) m = ground (
    arith,
    send_subscriptions (answers c) c m,
    release_all-subscriptions answers codes (send (answers c) (released c) m).0,
  )

  pub connect-subscriptions :
      (opens : Bool) (m : KisWebSocketManager F)
      → (connect opens m).0.subscriptions ≡ m.subscriptions
  unfolding connect
  connect-subscriptions opens m = ground arith

  pub and_then-IsWithin :
      (o : Outcome F) (rest : KisWebSocketManager F → Outcome F)
      → IsWithin o.0.subscriptions
      → ((m : KisWebSocketManager F) → IsWithin m.subscriptions → IsWithin (rest m).0.subscriptions)
      → IsWithin (and_then o rest).0.subscriptions
  and_then-IsWithin (m, none) rest w next = next m w
  and_then-IsWithin (m, some raised) rest w next = w

  pub on_error-IsWithin :
      (o : Outcome F) (again : KisWebSocketManager F → Outcome F)
      → IsWithin o.0.subscriptions
      → ((m : KisWebSocketManager F)
          → IsWithin m.subscriptions
          → IsWithin (again m).0.subscriptions)
      → IsWithin (on_error o again).0.subscriptions
  on_error-IsWithin (m, none) again w next = w
  on_error-IsWithin (m, some raised) again w next = next m w

  pub either_IsWithin :
      (b : Bool) (x y : Outcome F)
      → IsWithin x.0.subscriptions
      → IsWithin y.0.subscriptions
      → IsWithin (if b then x else y).0.subscriptions
  either_IsWithin true x y p q = p
  either_IsWithin false x y p q = q

  close_connection-IsWithin :
      (closes : Bool) (o : Outcome F)
      → IsWithin o.0.subscriptions
      → IsWithin (close_connection closes o).0.subscriptions
  close_connection-IsWithin closes (m, some raised) w = w
  close_connection-IsWithin closes (m, none) w = elim (Bool-cases m.has_connection) [
    | inl e ↦ rw e (elim (Bool-cases closes) [
      | inl f ↦ rw f (tt, omega arith)
      | inr f ↦ rw f (tt, omega arith)
    ])
    | inr e ↦ rw e (tt, omega arith)
  ]

  pub disconnect-IsWithin :
      (answers : String → Bool) (closes : Bool) (m : KisWebSocketManager F)
      → IsWithin m.subscriptions
      → IsWithin (disconnect answers closes m).0.subscriptions
  unfolding disconnect
  disconnect-IsWithin answers closes m w = elim (Bool-cases (is_disconnected m.state)) [
    | inl e ↦ rw e w
    | inr e ↦ rw e (
        close_connection-IsWithin closes
          (release_all answers m.subscriptions (record m { running = false }))
          (rw (release_all-subscriptions answers m.subscriptions (record m { running = false })) w))
  ]
