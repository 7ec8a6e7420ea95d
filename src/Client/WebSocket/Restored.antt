-- ===== src/Client/WebSocket/Restored.antt =====
-- What a reconnection restores, and what is left where it gives up.
use Prim.Native.String.{String}
use kis_autotrader.Common.{
  ℕ, zero, suc, ◌+◌, ◌-◌, ◌≤◌, ◌<◌, ◌≡◌, refl, sym, ap, subst, ◌∙◌, Bool, true, false, none, some,
  List, [], ◌∷◌, ◌++◌, arith, length, All, length-append, append_empty, append_assoc, leb, inl, inr,
  Bool-cases, if◌then◌else◌,
}
use kis_autotrader.Common.Texts.{eq_symm}
use kis_autotrader.Float.{Float, of_ℕ, ◌⊖◌}
use kis_autotrader.Python.{web_socket_reconnect_failed, other}
use kis_autotrader.Client.WebSocket.{
  KisWebSocketManager, Outcome, Attempt, Event, disconnected, max_subscriptions, subscribed,
  discard, may_subscribe, note, slept, opened, closed, send, registered, released, debounce, added,
  register, and_then, on_error, subscribe, resubscribe, restore_all, subscribing, lost, reopened,
  next_attempt, try_reconnect, reconnect, handle_disconnect,
}
use kis_autotrader.Client.WebSocket.Codes.{IsUnique, IsWithin, subscribed-snoc}

-- The stocks that the server sends: those registered on the connection that was opened last.
module _ {F : Type 0} where
  abbrev pub served_after : Event F → List String → List String
  served_after (slept wait) codes = codes
  served_after opened codes = []
  served_after (registered code) codes = codes ++ (code ∷ [])
  served_after (released code) codes = discard code codes
  served_after closed codes = []

  abbrev served_from : List String → List (Event F) → List String
  served_from codes [] = codes
  served_from codes (e ∷ es) = served_from (served_after e codes) es

  abbrev pub served : List (Event F) → List String
  served es = served_from [] es

  pub served-snoc :
      (codes : List String) (es : List (Event F)) (e : Event F)
      → served_from codes (es ++ (e ∷ [])) ≡ served_after e (served_from codes es)
  served-snoc codes [] e = refl
  served-snoc codes (f ∷ es) e = served-snoc (served_after f codes) es e

  -- Connected, with just the given stocks subscribed and served.
  pub record IsLive (codes : List String) (m : KisWebSocketManager F) : Type 0 where
    pub connection : m.has_connection ≡ true
    pub ready : may_subscribe m.state ≡ true
    pub subscriptions_lem : m.subscriptions ≡ codes
    pub served_lem : served m.events ≡ codes

  -- The counter of the attempts and its limit are not touched.
  abbrev Counts : KisWebSocketManager F → KisWebSocketManager F → Type 0
  Counts m m' = (m'.reconnect_count ≡ m.reconnect_count) × (m'.max_reconnect ≡ m.max_reconnect)

  abbrev Restores : List String → KisWebSocketManager F → Outcome F → Type 0
  Restores codes m (m', none) = IsLive codes m' × Counts m m'
  Restores codes m (m', some raised) = Counts m m'

still_fresh :
    (code : String) (codes rest : List String)
    → subscribed code rest ≡ false
    → All (λ c. subscribed c codes ≡ false) rest
    → All (λ c. subscribed c (codes ++ (code ∷ [])) ≡ false) rest
still_fresh code codes [] h all = tt
still_fresh code codes (c ∷ rest) h (f, all) = (
  ground (arith, subscribed-snoc c code codes, eq_symm c code),
  still_fresh code codes rest (ground arith) all,
)

module _ {F : Type 0} ⦃N : Float F⦄ where
  debounce_lem :
      (now : F) (m : KisWebSocketManager F)
      → ((debounce now m).has_connection ≡ m.has_connection)
        × ((debounce now m).subscriptions ≡ m.subscriptions)
        × ((debounce now m).reconnect_count ≡ m.reconnect_count)
        × ((debounce now m).max_reconnect ≡ m.max_reconnect)
        × (served (debounce now m).events ≡ served m.events)
  debounce_lem now m = elim (Bool-cases (N.lt (now ⊖ m.last_subscribe_time) (of_ℕ 1))) [
    | inl e ↦ rw e (
      refl,
      refl,
      refl,
      refl,
      served-snoc [] m.events (slept (of_ℕ 1 ⊖ (now ⊖ m.last_subscribe_time))),
    )
    | inr e ↦ rw e (refl, refl, refl, refl, refl)
  ]

  added-Restores :
      (end : F) (answers : Bool) (code : String) (codes : List String) (m w : KisWebSocketManager F)
      → w.has_connection ≡ true
      → w.subscriptions ≡ codes
      → served w.events ≡ codes
      → Counts m w
      → Restores (codes ++ (code ∷ [])) m (added end code (send answers (registered code) w))
  added-Restores end answers code codes m w c s v n =
      subst
        (λ b. Restores (codes ++ (code ∷ [])) m (
          added end code (
            if b
            then (if answers then (note (registered code) w, true) else (w, false))
            else (w, true))))
        (sym c) (by_answer answers)
    where
      by_answer :
          (b : Bool)
          → Restores
              (codes ++ (code ∷ []))
              m
              (added end code (if b then (note (registered code) w, true) else (w, false)))
      by_answer false = n
      by_answer true = (
        record {
          connection = c;
          ready = refl;
          subscriptions_lem = ap (λ cs. cs ++ (code ∷ [])) s;
          served_lem = served-snoc [] w.events (registered code) ∙ ap (λ cs. cs ++ (code ∷ [])) v;
        },
        n,
      )

  -- A stock that is new, below the limit.
  resubscribe-Restores :
      (a : Attempt F) (code : String) (codes : List String) (m : KisWebSocketManager F)
      → IsLive codes m
      → subscribed code codes ≡ false
      → length codes < max_subscriptions
      → Restores (codes ++ (code ∷ [])) m (resubscribe a code m)
  unfolding subscribe register
  resubscribe-Restores a code codes m l fresh few =
      let (c, s, n, x, v) = debounce_lem (a.now code) m in
      let fresh' : subscribed code m.subscriptions ≡ false =
        ap (subscribed code) l.subscriptions_lem ∙ fresh in
      let few' : leb max_subscriptions (length m.subscriptions) ≡ false =
        ground (arith, ap (λ (cs : List String). length cs) l.subscriptions_lem) in
      simp (l.ready, fresh', few')
        (added-Restores (a.end code) (a.answers code) code codes m
          (record (debounce (a.now code) m) { state = subscribing }) (c ∙ l.connection)
          (s ∙ l.subscriptions_lem) (v ∙ l.served_lem) (n, x))

  and_then-Restores :
      (codes all : List String) (m : KisWebSocketManager F) (o : Outcome F)
      (rest : KisWebSocketManager F → Outcome F)
      → Restores codes m o
      → ((m' : KisWebSocketManager F) → IsLive codes m' → Restores all m' (rest m'))
      → Restores all m (and_then o rest)
  and_then-Restores codes all m (m', some raised) rest h next = h
  and_then-Restores codes all m (m', none) rest (l, (n, x)) next = through (rest m') (next m' l)
    where
      through : (o : Outcome F) → Restores all m' o → Restores all m o
      through (u, some raised) (n', x') = (n' ∙ n, x' ∙ x)
      through (u, none) (l', (n', x')) = (l', (n' ∙ n, x' ∙ x))

  restore_all-Restores :
      (a : Attempt F) (rest codes : List String) (m : KisWebSocketManager F)
      → IsLive codes m
      → IsUnique rest
      → All (λ c. subscribed c codes ≡ false) rest
      → length codes + length rest ≤ max_subscriptions
      → Restores (codes ++ rest) m (restore_all a rest m)
  unfolding restore_all
  restore_all-Restores a [] codes m l u f n =
      subst (λ cs. Restores cs m (m, none)) (sym (append_empty codes)) (l, (refl, refl))
  restore_all-Restores a (code ∷ rest) codes m l (new, u) (f, fs) n =
      subst (λ cs. Restores cs m (restore_all a (code ∷ rest) m))
        (append_assoc codes (code ∷ []) rest)
        (and_then-Restores (codes ++ (code ∷ [])) ((codes ++ (code ∷ [])) ++ rest) m
          (resubscribe a code m) (λ m'. restore_all a rest m')
          (resubscribe-Restores a code codes m l f (omega arith))
          (λ m' l'.
            restore_all-Restores a rest (codes ++ (code ∷ [])) m' l' u
              (still_fresh code codes rest new fs)
              (omega (arith, length-append codes (code ∷ [])))))

  -- What a reconnection leaves: all stocks are subscribed and served again and the attempts are
  -- forgotten; or the attempts are used up, and there is no connection.
  abbrev pub IsReconnected : List String → Outcome F → Type 0
  IsReconnected saved (m, none) = IsLive saved m × (m.reconnect_count ≡ 0)
  IsReconnected saved (m, some raised) =
      (raised ≡ web_socket_reconnect_failed)
      × (m.state ≡ disconnected)
      × (m.has_connection ≡ false)
      × (m.max_reconnect ≤ m.reconnect_count)

  attempt-Counts :
      (a : Attempt F) (saved : List String) (m : KisWebSocketManager F)
      → IsWithin saved
      → Restores saved m (try_reconnect a saved m)
  attempt-Counts a saved m (u, n) = by_answer a.opens
    where
      unsubscribed : (cs : List String) → All (λ c. subscribed c [] ≡ false) cs
      unsubscribed [] = tt
      unsubscribed (c ∷ cs) = (refl, unsubscribed cs)

      fresh_IsLive : IsLive [] (reopened m)
      fresh_IsLive = record {
        connection = refl;
        ready = refl;
        subscriptions_lem = refl;
        served_lem = served-snoc [] m.events opened;
      }

      by_answer :
          (b : Bool)
          → Restores saved m (if b then restore_all a saved (reopened m) else (m, some other))
      by_answer false = (refl, refl)
      by_answer true = as_before (restore_all a saved (reopened m)) (
          restore_all-Restores a saved [] (reopened m) fresh_IsLive u (unsubscribed saved)
            (omega (arith, n)))
        where
          as_before : (o : Outcome F) → Restores saved (reopened m) o → Restores saved m o
          as_before (m', none) h = h
          as_before (m', some raised) h = h

  reconnect-IsReconnected :
      (rounds : ℕ) (attempts : ℕ → Attempt F) (saved : List String) (m : KisWebSocketManager F)
      → IsWithin saved
      → m.max_reconnect ≤ m.reconnect_count + rounds
      → IsReconnected saved (reconnect rounds attempts saved (lost m))
  unfolding reconnect
  reconnect-IsReconnected zero attempts saved m w h = (refl, refl, refl, omega arith)
  reconnect-IsReconnected (suc rounds) attempts saved m w h =
      over (try_reconnect (attempts (suc m.reconnect_count)) saved (next_attempt (lost m)))
        (attempt-Counts (attempts (suc m.reconnect_count)) saved (next_attempt (lost m)) w)
        (λ m' k. reconnect-IsReconnected rounds attempts saved m' w k)
    where
      over :
          (o : Outcome F)
          → Restores saved (next_attempt (lost m)) o
          → ((m' : KisWebSocketManager F)
              → m'.max_reconnect ≤ m'.reconnect_count + rounds
              → IsReconnected saved (reconnect rounds attempts saved (lost m')))
          → IsReconnected saved (on_error o (λ m'. reconnect rounds attempts saved (lost m')))
      over (m', none) (l, n) next = (
        record {
          connection = l.connection;
          ready = l.ready;
          subscriptions_lem = l.subscriptions_lem;
          served_lem = l.served_lem;
        },
        refl,
      )
      over (m', some raised) (n, x) next = next m' (omega (arith, n, x))

  -- A lost connection either comes back with every stock subscribed, and served by the server, in a
  -- state that takes further subscriptions, and the attempts forgotten; or the attempts are used up,
  -- the error says so, and the manager is disconnected.
  pub handle_disconnect-IsReconnected :
      (attempts : ℕ → Attempt F) (m : KisWebSocketManager F)
      → IsWithin m.subscriptions
      → IsReconnected m.subscriptions (handle_disconnect attempts m)
  unfolding handle_disconnect
  handle_disconnect-IsReconnected attempts m w =
      reconnect-IsReconnected (m.max_reconnect - m.reconnect_count) attempts m.subscriptions m w
        (omega arith)
