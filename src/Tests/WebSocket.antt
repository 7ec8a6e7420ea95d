-- ===== src/Tests/WebSocket.antt =====
-- src/api/websocket.py: two stocks, a lost connection, and attempts that fail first or all.
use kis_autotrader.Common.{ℕ, ◌≡◌, refl, true, false, ◌==◌, not, none, [], ◌∷◌, arith, List}
use kis_autotrader.Common.Int.{pos, ◌*ℤ◌, ◌-ℤ◌}
use kis_autotrader.Float.Milli.{Milli, milli_float}
use kis_autotrader.Client.WebSocket.{
  KisWebSocketManager, Attempt, active, connected, connect, subscribe, register, handle_disconnect,
  reconnect, restore_all,
}
use kis_autotrader.Client.WebSocket.Codes.{IsWithin}
use kis_autotrader.Client.WebSocket.Within.{Call, after_calls, after_calls-IsWithin}
use kis_autotrader.Client.WebSocket.Restored.{
  IsReconnected, served, handle_disconnect-IsReconnected,
}
use kis_autotrader.Client.WebSocket.Stale.{handle_disconnect-connect_stale}

abbrev manager : KisWebSocketManager Milli
manager = record {
  max_reconnect = 3;
  base_delay = pos 1000;
  state = active;
  has_connection = true;
  subscriptions = "005930" ∷ "000660" ∷ [];
  reconnect_count = 0;
  last_subscribe_time = pos 0;
  running = true;
  events = [];
}

-- The first attempt fails, the second one opens.
abbrev second : ℕ → Attempt Milli
second n = record {
  opens = not (n == 1);
  now = λ code. pos 5000;
  end = λ code. pos 6000;
  answers = λ code. true;
}

abbrev none_opens : ℕ → Attempt Milli
none_opens n = record (second n) { opens = false }

reconnected : (handle_disconnect second manager).0.subscriptions ≡ "005930" ∷ "000660" ∷ []
unfolding handle_disconnect reconnect restore_all subscribe register milli_float ◌*ℤ◌ ◌-ℤ◌
reconnected = refl

handle_disconnect-IsReconnected_example :
    IsReconnected ("005930" ∷ "000660" ∷ []) (handle_disconnect second manager)
handle_disconnect-IsReconnected_example =
    handle_disconnect-IsReconnected second manager ((refl, (refl, tt)), omega arith)

abbrev calls : List (Call Milli)
calls =
    Call.call_subscribe (pos 500) (pos 1000) false "035720"
    ∷ Call.connection_lost second
    ∷ Call.call_unsubscribe (pos 7000) true "005930"
    ∷ []

after_calls-IsWithin_example : IsWithin (after_calls calls manager).subscriptions
after_calls-IsWithin_example = after_calls-IsWithin calls manager ((refl, (refl, tt)), omega arith)

handle_disconnect-connect_stale_example :
    let m = (connect true (handle_disconnect none_opens manager).0).0 in
    (m.state ≡ connected)
    × (subscribe (pos 9000) (pos 9000) true "005930" m ≡ (m, none))
    × (served m.events ≡ [])
handle_disconnect-connect_stale_example =
    handle_disconnect-connect_stale none_opens (pos 9000) (pos 9000) true "005930" manager
      (λ n. refl) refl
