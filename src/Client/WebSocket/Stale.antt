-- ===== src/Client/WebSocket/Stale.antt =====
-- Subscriptions that outlive their connection.
use Prim.Native.String.{String}
use kis_autotrader.Common.{
  ℕ, zero, suc, ◌-◌, ◌≡◌, refl, Bool, true, false, none, List, [], ap, sym, subst, ◌∙◌, some,
  if◌then◌else◌,
}
use kis_autotrader.Float.{Float}
use kis_autotrader.Python.{other}
use kis_autotrader.Client.WebSocket.{
  KisWebSocketManager, Outcome, Attempt, disconnected, connected, subscribed, is_disconnected,
  connect, subscribe, opened, on_error, restore_all, reopened, lost, next_attempt, reconnect,
  handle_disconnect,
}
use kis_autotrader.Client.WebSocket.Restored.{served, served-snoc}

module _ {F : Type 0} ⦃N : Float F⦄ where
  -- The subscriptions are kept, and there is no connection.
  abbrev IsGivenUp : List String → Outcome F → Type 0
  IsGivenUp codes o = (o.0.subscriptions ≡ codes) × (o.0.state ≡ disconnected)

  if_false : (b : Bool) (x y : Outcome F) → b ≡ false → (if b then x else y) ≡ y
  if_false true x y e = cc
  if_false false x y e = refl

  reconnect_refused :
      (rounds : ℕ) (attempts : ℕ → Attempt F) (saved : List String) (m : KisWebSocketManager F)
      → ((n : ℕ) → (attempts n).opens ≡ false)
      → IsGivenUp m.subscriptions (reconnect rounds attempts saved (lost m))
  unfolding reconnect
  reconnect_refused zero attempts saved m refused = (refl, refl)
  reconnect_refused (suc rounds) attempts saved m refused =
      let a = attempts (suc m.reconnect_count) in
      let tried = next_attempt (lost m) in
      subst
        (λ o.
          IsGivenUp m.subscriptions (on_error o (λ m'. reconnect rounds attempts saved (lost m'))))
        (sym (
          if_false a.opens (restore_all a saved (reopened tried)) (tried, some other)
            (refused (suc m.reconnect_count))))
        (reconnect_refused rounds attempts saved tried refused)

  connect-subscribe :
      (now end : F) (answers : Bool) (code : String) (m : KisWebSocketManager F)
      → m.state ≡ disconnected
      → subscribed code m.subscriptions ≡ true
      → let m' = (connect true m).0 in
        (m'.state ≡ connected)
        × (subscribe now end answers code m' ≡ (m', none))
        × (served m'.events ≡ [])
  unfolding connect subscribe
  connect-subscribe now end answers code m d kept =
      let e : is_disconnected m.state ≡ true = ap is_disconnected d in
      simp (e, kept) (refl, refl, served-snoc [] m.events opened)

  -- Where no attempt to reconnect is answered, a later connect succeeds, and still no stock is
  -- served: subscribing to a stock that was subscribed before returns, sends nothing and changes
  -- nothing.
  pub handle_disconnect-connect_stale :
      (attempts : ℕ → Attempt F) (now end : F) (answers : Bool) (code : String)
      (m : KisWebSocketManager F)
      → ((n : ℕ) → (attempts n).opens ≡ false)
      → subscribed code m.subscriptions ≡ true
      → let m' = (connect true (handle_disconnect attempts m).0).0 in
        (m'.state ≡ connected)
        × (subscribe now end answers code m' ≡ (m', none))
        × (served m'.events ≡ [])
  unfolding handle_disconnect
  handle_disconnect-connect_stale attempts now end answers code m refused kept =
      let (s, d) =
        reconnect_refused (m.max_reconnect - m.reconnect_count) attempts m.subscriptions m
          refused in
      connect-subscribe now end answers code (handle_disconnect attempts m).0 d
        (ap (subscribed code) s ∙ kept)
