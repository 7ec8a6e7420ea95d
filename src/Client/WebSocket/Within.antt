-- ===== src/Client/WebSocket/Within.antt =====
-- What holds of the subscriptions whatever is called and whatever fails.
use Prim.Native.String.{String}
use kis_autotrader.Common.{
  ℕ, zero, suc, ◌≡◌, refl, Bool, true, false, some, List, [], ◌∷◌, ◌++◌, arith, length,
  length-append, leb, ◌-◌, ap, ◌∙◌, ◌⊎◌, inl, inr, Bool-cases,
}
use kis_autotrader.Float.{Float}
use kis_autotrader.Python.{other}
use kis_autotrader.Client.WebSocket.{
  KisWebSocketManager, Attempt, max_subscriptions, subscribed, may_subscribe, send, registered,
  released, connect, disconnect, debounce, added, register, subscribe, unsubscribe, resubscribe,
  restore_all, subscribing, lost, reopened, next_attempt, try_reconnect, reconnect,
  handle_disconnect,
}
use kis_autotrader.Client.WebSocket.Codes.{
  IsWithin, snoc-IsUnique, discard-IsWithin, send_subscriptions, connect-subscriptions,
  and_then-IsWithin, on_error-IsWithin, either_IsWithin, disconnect-IsWithin,
}

module _ {F : Type 0} ⦃N : Float F⦄ where
  debounce-subscriptions :
      (now : F) (m : KisWebSocketManager F) → (debounce now m).subscriptions ≡ m.subscriptions
  debounce-subscriptions now m = ground arith

  added_subscriptions :
      (end : F) (code : String) (o : KisWebSocketManager F × Bool)
      → ((added end code o).0.subscriptions ≡ o.0.subscriptions)
        ⊎ ((added end code o).0.subscriptions ≡ o.0.subscriptions ++ (code ∷ []))
  added_subscriptions end code (m, false) = inl refl
  added_subscriptions end code (m, true) = inr refl

  register-subscriptions :
      (now end : F) (answers : Bool) (code : String) (m : KisWebSocketManager F)
      → ((register now end answers code m).0.subscriptions ≡ m.subscriptions)
        ⊎ ((register now end answers code m).0.subscriptions ≡ m.subscriptions ++ (code ∷ []))
  unfolding register
  register-subscriptions now end answers code m =
      elim (added_subscriptions end code
        (send answers (registered code) (record (debounce now m) { state = subscribing }))) [
          | inl e ↦ inl (e ∙ sent)
          | inr e ↦ inr (e ∙ ap (λ cs. cs ++ (code ∷ [])) sent)
        ]
    where
      sent :
          (send answers
            (registered code)
            (record (debounce now m) { state = subscribing })).0.subscriptions
          ≡ m.subscriptions
      sent =
          (send_subscriptions answers code (record (debounce now m) { state = subscribing })).1
          ∙ debounce-subscriptions now m

  subscribe-IsWithin :
      (now end : F) (answers : Bool) (code : String) (m : KisWebSocketManager F)
      → IsWithin m.subscriptions
      → IsWithin (subscribe now end answers code m).0.subscriptions
  unfolding subscribe
  subscribe-IsWithin now end answers code m (u, n) = elim (Bool-cases (may_subscribe m.state)) [
    | inr e ↦ rw e (u, n)
    | inl e ↦ rw e (elim (Bool-cases (subscribed code m.subscriptions)) [
      | inl f ↦ rw f (u, n)
      | inr f ↦ rw f (elim (Bool-cases (leb max_subscriptions (length m.subscriptions))) [
        | inl g ↦ rw g (u, n)
        | inr g ↦ rw g (elim (register-subscriptions now end answers code m) [
          | inl q ↦ rw q (u, n)
          | inr q ↦ rw q (
            snoc-IsUnique code m.subscriptions f u,
            ground (arith, length-append m.subscriptions (code ∷ [])),
          )
        ])
      ])
    ])
  ]

  unsubscribe-IsWithin :
      (now : F) (answers : Bool) (code : String) (m : KisWebSocketManager F)
      → IsWithin m.subscriptions
      → IsWithin (unsubscribe now answers code m).0.subscriptions
  unfolding unsubscribe
  unsubscribe-IsWithin now answers code m (u, n) =
      let s = (send_subscriptions answers code (debounce now m)).0 ∙ debounce-subscriptions now m in
      elim (Bool-cases (subscribed code m.subscriptions)) [
        | inr e ↦ rw e (u, n)
        | inl e ↦ rw e (elim (Bool-cases (send answers (released code) (debounce now m)).1) [
          | inl f ↦
              rw (f, s) (let (v, k) = discard-IsWithin code m.subscriptions u in (v, omega arith))
          | inr f ↦ rw (f, s) (u, n)
        ])
      ]

  restore_all-IsWithin :
      (a : Attempt F) (codes : List String) (m : KisWebSocketManager F)
      → IsWithin m.subscriptions
      → IsWithin (restore_all a codes m).0.subscriptions
  unfolding restore_all
  restore_all-IsWithin a [] m w = w
  restore_all-IsWithin a (c ∷ codes) m w =
      and_then-IsWithin (resubscribe a c m) (λ m'. restore_all a codes m')
        (subscribe-IsWithin (a.now c) (a.end c) (a.answers c) c m w)
        (λ m' w'. restore_all-IsWithin a codes m' w')

  reconnect-IsWithin :
      (rounds : ℕ) (attempts : ℕ → Attempt F) (saved : List String) (m : KisWebSocketManager F)
      → IsWithin m.subscriptions
      → IsWithin (reconnect rounds attempts saved m).0.subscriptions
  unfolding reconnect
  reconnect-IsWithin zero attempts saved m w = w
  reconnect-IsWithin (suc rounds) attempts saved m w =
      let a = attempts (suc m.reconnect_count) in
      on_error-IsWithin (try_reconnect a saved (next_attempt m))
        (λ m'. reconnect rounds attempts saved (lost m'))
        (either_IsWithin a.opens (restore_all a saved (reopened (next_attempt m)))
          (next_attempt m, some other)
          (restore_all-IsWithin a saved (reopened (next_attempt m)) (tt, omega arith)) w)
        (λ m' w'. reconnect-IsWithin rounds attempts saved (lost m') w')

-- A call of the manager with all that is answered to it.
pub data Call (F : Type 0) : Type 0 where
  call_connect : Bool → Call F
  call_disconnect : (String → Bool) → Bool → Call F
  call_subscribe : F → F → Bool → String → Call F
  call_unsubscribe : F → Bool → String → Call F
  connection_lost : (ℕ → Attempt F) → Call F

module _ {F : Type 0} ⦃N : Float F⦄ where
  abbrev pub after_call : Call F → KisWebSocketManager F → KisWebSocketManager F
  after_call (Call.call_connect opens) m = (connect opens m).0
  after_call (Call.call_disconnect answers closes) m = (disconnect answers closes m).0
  after_call (Call.call_subscribe now end answers code) m = (subscribe now end answers code m).0
  after_call (Call.call_unsubscribe now answers code) m = (unsubscribe now answers code m).0
  after_call (Call.connection_lost attempts) m = (handle_disconnect attempts m).0

  abbrev pub after_calls : List (Call F) → KisWebSocketManager F → KisWebSocketManager F
  after_calls [] m = m
  after_calls (c ∷ calls) m = after_calls calls (after_call c m)

  after_call-IsWithin :
      (c : Call F) (m : KisWebSocketManager F)
      → IsWithin m.subscriptions
      → IsWithin (after_call c m).subscriptions
  unfolding handle_disconnect
  after_call-IsWithin (Call.call_connect opens) m w = rw (connect-subscriptions opens m) w
  after_call-IsWithin (Call.call_disconnect answers closes) m w =
      disconnect-IsWithin answers closes m w
  after_call-IsWithin (Call.call_subscribe now end answers code) m w =
      subscribe-IsWithin now end answers code m w
  after_call-IsWithin (Call.call_unsubscribe now answers code) m w =
      unsubscribe-IsWithin now answers code m w
  after_call-IsWithin (Call.connection_lost attempts) m w =
      reconnect-IsWithin (m.max_reconnect - m.reconnect_count) attempts m.subscriptions (lost m) w

  -- Whatever calls are made, one after the other, each ended before the next one begins, and
  -- whichever of them fail half way, no stock is subscribed twice and no more than 41 are.
  pub after_calls-IsWithin :
      (calls : List (Call F)) (m : KisWebSocketManager F)
      → IsWithin m.subscriptions
      → IsWithin (after_calls calls m).subscriptions
  after_calls-IsWithin [] m w = w
  after_calls-IsWithin (c ∷ calls) m w =
      after_calls-IsWithin calls (after_call c m) (after_call-IsWithin c m w)
