-- ===== src/Client/WebSocket.antt =====
-- src/api/websocket.py, class KISWebSocketManager. The answers of the server, to the opening of a
-- connection and to each message, and the readings of the clock are arguments; what goes out is
-- noted as events. A call is one step: what other calls do during its awaits is not modelled. The
-- loop that receives messages and the messages' texts are left out.
pub mod Codes
pub mod Within
pub mod Restored
pub mod Stale
use Prim.Native.String.{String}
use text.Mathlib.Text.{◌==◌ as str_eq}
use kis_autotrader.Common.{
  ℕ, zero, suc, ◌-◌, ◌^◌, Bool, true, false, not, ◌||◌, Option, none, some, List, [], ◌∷◌, ◌++◌,
  length, leb, if◌then◌else◌,
}
use kis_autotrader.Float.{Float, of_ℕ, ◌⊖◌, ◌⊗◌, min_f}
use kis_autotrader.Python.{Error, web_socket, web_socket_reconnect_failed, other}

pub data ConnectionState : Type 0 where
  disconnected connecting connected subscribing active : ConnectionState

pub data Event (F : Type 0) : Type 0 where
  slept : F → Event F
  opened : Event F
  registered : String → Event F
  released : String → Event F
  closed : Event F

pub record KisWebSocketManager (F : Type 0) : Type 0 where
  pub max_reconnect : ℕ
  pub base_delay : F
  pub state : ConnectionState
  -- `_ws` is not None
  pub has_connection : Bool
  pub subscriptions : List String
  pub reconnect_count : ℕ
  pub last_subscribe_time : F
  pub running : Bool
  pub events : List (Event F)

-- A method changes the manager and returns, or raises.
abbrev pub Outcome : Type 0 → Type 0
Outcome F = KisWebSocketManager F × Option Error

abbrev pub max_subscriptions : ℕ
max_subscriptions = 41

-- `code in subscriptions`
abbrev pub subscribed : String → List String → Bool
subscribed code [] = false
subscribed code (c ∷ cs) = str_eq c code || subscribed code cs

-- `subscriptions.discard(code)`
abbrev pub discard : String → List String → List String
discard code [] = []
discard code (c ∷ cs) = let rest = discard code cs in if str_eq c code then rest else c ∷ rest

abbrev pub is_disconnected : ConnectionState → Bool
is_disconnected disconnected = true
is_disconnected state = false

abbrev pub may_subscribe : ConnectionState → Bool
may_subscribe connected = true
may_subscribe active = true
may_subscribe state = false

-- What the server and the clock answer to one attempt to reconnect.
pub record Attempt (F : Type 0) : Type 0 where
  pub opens : Bool
  pub now : String → F
  pub end : String → F
  pub answers : String → Bool

module _ {F : Type 0} where
  abbrev pub note : Event F → KisWebSocketManager F → KisWebSocketManager F
  note event m = record m { events = m.events ++ (event ∷ []) }

  -- `_send_subscribe` and `_send_unsubscribe`: whether the call returns
  abbrev pub send : Bool → Event F → KisWebSocketManager F → KisWebSocketManager F × Bool
  send answers event m =
      if m.has_connection then (if answers then (note event m, true) else (m, false)) else (m, true)

  -- An exception skips what follows.
  abbrev pub and_then : Outcome F → (KisWebSocketManager F → Outcome F) → Outcome F
  and_then (m, none) rest = rest m
  and_then (m, some raised) rest = (m, some raised)

  -- The `try` of the reconnection: an exception is logged, and success clears the count.
  abbrev pub on_error : Outcome F → (KisWebSocketManager F → Outcome F) → Outcome F
  on_error (m, none) again = (record m { reconnect_count = 0 }, none)
  on_error (m, some raised) again = again m

  unfoldable pub connect : Bool → KisWebSocketManager F → Outcome F
  connect opens m =
      if not (is_disconnected m.state)
      then (m, none)
      else if opens
      then (
        note opened (record m {
          state = connected;
          has_connection = true;
          reconnect_count = 0;
          running = true;
        }),
        none,
      )
      else (record m { state = disconnected }, some web_socket)

  -- The loop of `disconnect` over the subscriptions
  abbrev pub release_all : (String → Bool) → List String → KisWebSocketManager F → Outcome F
  release_all answers [] m = (m, none)
  release_all answers (code ∷ codes) m =
      let (m', sent) = send (answers code) (released code) m in
      let rest = release_all answers codes m' in if sent then rest else (m', some other)

  abbrev pub close_connection : Bool → Outcome F → Outcome F
  close_connection closes (m, some raised) = (m, some raised)
  close_connection closes (m, none) =
      let cleared = record m { subscriptions = [] } in
      if not m.has_connection
      then (record cleared { state = disconnected }, none)
      else if closes
      then (note closed (record cleared { has_connection = false; state = disconnected }), none)
      else (cleared, some other)

  unfoldable pub disconnect : (String → Bool) → Bool → KisWebSocketManager F → Outcome F
  disconnect answers closes m =
      if is_disconnected m.state
      then (m, none)
      else close_connection closes
          (release_all answers m.subscriptions (record m { running = false }))

module _ {F : Type 0} ⦃N : Float F⦄ where
  -- `_debounce`
  abbrev pub debounce : F → KisWebSocketManager F → KisWebSocketManager F
  debounce now m =
      let elapsed = now ⊖ m.last_subscribe_time in
      if N.lt elapsed (of_ℕ 1) then note (slept (of_ℕ 1 ⊖ elapsed)) m else m

  abbrev pub added : F → String → KisWebSocketManager F × Bool → Outcome F
  added end code (m, false) = (m, some other)
  added end code (m, true) = (
    record m {
      subscriptions = m.subscriptions ++ (code ∷ []);
      state = active;
      last_subscribe_time = end;
    },
    none,
  )

  -- `subscribe` behind its guards; a message that fails leaves the state at SUBSCRIBING.
  unfoldable pub register : F → F → Bool → String → KisWebSocketManager F → Outcome F
  register now end answers code m =
      added end code
        (send answers (registered code) (record (debounce now m) { state = subscribing }))

  unfoldable pub subscribe : F → F → Bool → String → KisWebSocketManager F → Outcome F
  subscribe now end answers code m =
      if not (may_subscribe m.state)
      then (m, some web_socket)
      else if subscribed code m.subscriptions
      then (m, none)
      else if leb max_subscriptions (length m.subscriptions)
      then (m, none)
      else register now end answers code m

  abbrev pub drop_code : String → KisWebSocketManager F → KisWebSocketManager F
  drop_code code m =
      let left = discard code m.subscriptions in
      record m { subscriptions = left; state = elim left [ [] ↦ connected | c ∷ cs ↦ m.state ] }

  unfoldable pub unsubscribe : F → Bool → String → KisWebSocketManager F → Outcome F
  unsubscribe now answers code m =
      if not (subscribed code m.subscriptions)
      then (m, none)
      else (let (m', sent) = send answers (released code) (debounce now m) in
          if sent then (drop_code code m', none) else (m', some other))

  abbrev pub resubscribe : Attempt F → String → KisWebSocketManager F → Outcome F
  resubscribe a code m = subscribe (a.now code) (a.end code) (a.answers code) code m

  -- The loop that restores the subscriptions
  unfoldable pub restore_all : Attempt F → List String → KisWebSocketManager F → Outcome F
  restore_all a [] m = (m, none)
  restore_all a (code ∷ codes) m = and_then (resubscribe a code m) (λ m'. restore_all a codes m')

  abbrev pub lost : KisWebSocketManager F → KisWebSocketManager F
  lost m = record m { state = disconnected; has_connection = false }

  -- `min(base_delay * 2 ** (count - 1), 60.0)`
  abbrev pub reconnect_delay : F → ℕ → F
  reconnect_delay base count = min_f (base ⊗ of_ℕ (2 ^ (count - 1))) (of_ℕ 60)

  abbrev pub reopened : KisWebSocketManager F → KisWebSocketManager F
  reopened m =
      note opened
        (record m { state = connected; has_connection = true; running = true; subscriptions = [] })

  abbrev pub next_attempt : KisWebSocketManager F → KisWebSocketManager F
  next_attempt m =
      note (slept (reconnect_delay m.base_delay (suc m.reconnect_count)))
        (record m { reconnect_count = suc m.reconnect_count })

  -- One attempt to open a connection and to restore the subscriptions
  abbrev pub try_reconnect : Attempt F → List String → KisWebSocketManager F → Outcome F
  try_reconnect a saved m = if a.opens then restore_all a saved (reopened m) else (m, some other)

  -- The loop of `_handle_disconnect`, with the attempts that are left; the attempts are numbered by
  -- `_reconnect_count`.
  unfoldable pub reconnect :
      (rounds : ℕ) (attempts : ℕ → Attempt F) (saved : List String) (m : KisWebSocketManager F)
      → Outcome F
  reconnect zero attempts saved m = (m, some web_socket_reconnect_failed)
  reconnect (suc rounds) attempts saved m =
      on_error (try_reconnect (attempts (suc m.reconnect_count)) saved (next_attempt m))
        (λ m'. reconnect rounds attempts saved (lost m'))

  -- `_handle_disconnect`
  unfoldable pub handle_disconnect : (ℕ → Attempt F) → KisWebSocketManager F → Outcome F
  handle_disconnect attempts m =
      reconnect (m.max_reconnect - m.reconnect_count) attempts m.subscriptions (lost m)
