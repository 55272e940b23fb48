-- ===== src/Ws/Status.antt =====
-- The status and the ids after each call and event that the manager hears.
use ops_sys.Base.{ℕ, ◌≡◌, refl, arith}
use ops_sys.Ws.Browser.{ReadyState, closing, closed, opened}
use ops_sys.Ws.{
  World, WsStatus, disconnected, connecting, connected, set_status, clear_retry, close_live_ws,
  new_socket, open_ws, teardown, reconnect, set_retry, schedule_reconnect, on_open, on_close,
  on_retry, send,
}
use ops_sys.Ws.Steps.{becomes, closes_socket, fires_timer}
use ops_sys.Ws.Phases.{Wanted, shows}

pub status-set : (s : WsStatus) (w : World) → (set_status s w).status ≡ s
unfolding set_status
status-set s w = ground arith

pub status-open :
    (w : World) → Wanted w.subscribed_ids w.destroyed → (open_ws w).status ≡ connecting
unfolding open_ws new_socket set_status
status-open w h = ground (arith, h)

pub status-reconnect :
    (w : World) → Wanted w.subscribed_ids w.destroyed → (reconnect w).status ≡ connecting
unfolding reconnect open_ws new_socket set_status clear_retry close_live_ws
status-reconnect w h = ground (arith, h)

pub status-teardown : (w : World) → (teardown w).status ≡ disconnected
unfolding teardown
status-teardown w = status-set disconnected _

pub status-on_open : (w : World) → (on_open w).status ≡ connected
unfolding on_open send set_status
status-on_open w = ground arith

pub ids-on_open : (w : World) → (on_open w).subscribed_ids ≡ w.subscribed_ids
unfolding on_open send set_status
ids-on_open w = ground arith

pub ids-open : (w : World) → (open_ws w).subscribed_ids ≡ w.subscribed_ids
unfolding open_ws new_socket set_status
ids-open w = ground arith

pub ids-on_close : (w : World) → (on_close w).subscribed_ids ≡ w.subscribed_ids
unfolding on_close schedule_reconnect set_retry set_status
ids-on_close w = ground arith

pub ids-fires : (t : ℕ) (w : World) → (fires_timer t w).subscribed_ids ≡ w.subscribed_ids
unfolding on_retry
ids-fires t w = ids-open _

pub status-fires :
    (t : ℕ) (w : World)
    → Wanted w.subscribed_ids w.destroyed
    → (fires_timer t w).status ≡ connecting
unfolding on_retry
status-fires t w h = status-open _ h

pub ids-closes : (i : ℕ) (w : World) → (closes_socket i w).subscribed_ids ≡ w.subscribed_ids
ids-closes i w = ground (arith, ids-on_close (becomes closed i w))

-- What a status says of the socket that shows it.
pub connecting_of_shows : (r : ReadyState) → shows r ≡ connecting → r ≡ ReadyState.connecting
connecting_of_shows ReadyState.connecting h = refl
connecting_of_shows opened h = cc
connecting_of_shows closing h = cc
connecting_of_shows closed h = cc
