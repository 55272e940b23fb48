-- ===== src/Ws/Steps.antt =====
-- What can happen to the manager: a call from a page, or an event of the browser, one at a time.
use ops_sys.Base.{ℕ, false, ◌≡◌, ◌≢◌, Option, none, some, [], if◌then◌else◌}
use ops_sys.Base.Text.{Text}
use ops_sys.Telemetry
use ops_sys.Telemetry.{Telemetry}
use ops_sys.Alerts.{Alerts}
use ops_sys.Ws.Browser.{ReadyState, opened, closing, closed, update, no_socket}
use ops_sys.Ws.{
  World, disconnected, first_delay, subscribe, unsubscribe, on_open, on_close, on_retry, Message,
  on_message, on_status_change, off_status_change,
}

abbrev pub initial : Text → World
initial gateway_url = record {
  ws = none;
  subscribed_ids = [];
  retry_delay = first_delay;
  retry_timer = none;
  destroyed = false;
  status = disconnected;
  listeners = [];
  sockets = λ _. no_socket;
  next_socket = 0;
  timers = λ _. none;
  next_timer = 1;
  notified = [];
  sent = [];
  token = none;
  gateway_url = gateway_url;
  telemetry = Telemetry.initial;
  alerts = [];
}

-- The browser changes the state of a socket, then calls the handler.
abbrev pub becomes : ReadyState → ℕ → World → World
becomes r i w = record w { sockets = update w.sockets i (record (w.sockets i) { ready = r }) }

abbrev pub closes_socket : ℕ → World → World
closes_socket i w =
    if (w.sockets i).has_onclose then on_close (becomes closed i w) else becomes closed i w

abbrev pub fires_timer : ℕ → World → World
fires_timer t w = on_retry (record w { timers = update w.timers t none })

-- Sockets open, receive, begin to close and close; the pending timer fires; pages subscribe,
-- unsubscribe and listen; the other stores change as they like.
pub data Step (w : World) : World → Type 0 where
  subscribes : (v : Text) → Step w (subscribe v w)
  unsubscribes : (v : Text) → Step w (unsubscribe v w)
  listens : (fn : ℕ) → Step w (on_status_change fn w)
  leaves : (fn : ℕ) → Step w (off_status_change fn w)
  opens :
      (i : ℕ) → (w.sockets i).ready ≡ ReadyState.connecting → Step w (on_open (becomes opened i w))
  receives : (i : ℕ) (m : Message) → (w.sockets i).ready ≡ opened → Step w (on_message m w)
  begins_to_close : (i : ℕ) → (w.sockets i).ready ≡ opened → Step w (becomes closing i w)
  closes : (i : ℕ) → (w.sockets i).ready ≢ closed → Step w (closes_socket i w)
  fires : (t d : ℕ) → w.timers t ≡ some d → Step w (fires_timer t w)
  stores_change :
      (token : Option Text) (telemetry : Telemetry) (alerts : Alerts)
      → Step w (record w { token = token; telemetry = telemetry; alerts = alerts })

pub data Reach (w : World) : World → Type 0 where
  here : Reach w w
  next : {u u' : World} → Reach w u → Step u u' → Reach w u'
