-- ===== src/App/Browser.antt =====
-- What the browser does to the connection of the manager, and to the stores at a frame: events that
-- can be run. An event that cannot happen in a world changes nothing.
use ops_sys.Base.{ℕ, Bool, true, false, none, some, if◌then◌else◌, not}
use ops_sys.Telemetry
use ops_sys.Telemetry.{animation_frame}
use ops_sys.Ws.Browser.{ReadyState, opened, closing, is_closed}
use ops_sys.Ws.{World, on_open, Message, on_message}
use ops_sys.Ws.Steps.{becomes, closes_socket, fires_timer}

pub data BrowserEvent : Type 0 where
  socket_opens socket_closing socket_closes : ℕ → BrowserEvent
  socket_receives : ℕ → Message → BrowserEvent
  timer_fires : ℕ → BrowserEvent
  store_flushes : BrowserEvent

abbrev pub is_connecting : ReadyState → Bool
is_connecting ReadyState.connecting = true
is_connecting _ = false

abbrev pub is_opened : ReadyState → Bool
is_opened opened = true
is_opened _ = false

unfoldable pub happens : BrowserEvent → World → World
happens (socket_opens i) w =
    if is_connecting (w.sockets i).ready then on_open (becomes opened i w) else w
happens (socket_closing i) w = if is_opened (w.sockets i).ready then becomes closing i w else w
happens (socket_closes i) w = if not (is_closed (w.sockets i).ready) then closes_socket i w else w
happens (socket_receives i m) w = if is_opened (w.sockets i).ready then on_message m w else w
happens (timer_fires t) w = elim (w.timers t) [ none ↦ w | some d ↦ fires_timer t w ]
happens store_flushes w = record w { telemetry = Telemetry.step w.telemetry animation_frame }
