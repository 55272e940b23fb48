-- ===== src/Ws.antt =====
-- server/dashboard/src/ws/WsManager.ts: the class `WsManager` with the part of the browser and of
-- the stores that its methods and callbacks change. A method takes the world and returns it
-- changed. Listeners are numbered, and do not call the manager back.
pub mod Browser
pub mod Steps
pub mod Phases
pub mod Safety
pub mod Status
pub mod Service
pub mod Recovery
pub mod Backoff
pub mod Ids
pub mod Dispatch
pub mod Listeners
mod Tests
use ops_sys.Base.{
  ℕ, ◌+◌, ◌*◌, Bool, true, false, ◌||◌, ◌==◌, Option, none, some, List, [], ◌∷◌, ◌++◌, map, min,
  if◌then◌else◌, get_or,
}
use ops_sys.Base.Text.{Text, codes}
use ops_sys.Base.Sets.{has, add, delete}
use ops_sys.Frames.{LiveFrame, AlertFrame, telemetry, alert, assistance_request, other}
use ops_sys.Telemetry
use ops_sys.Telemetry.{Telemetry}
use ops_sys.Alerts
use ops_sys.Alerts.{Alerts}
use Browser.{ReadyState, Socket, is_closed, shut, update}

pub data WsStatus : Type 0 where
  disconnected connecting connected : WsStatus

pub record SubscribeRequest : Type 0 where
  pub vehicle_ids : List Text
  pub streams : List Text
  pub format : Text

pub record World : Type 0 where
  -- The fields of `WsManager`.
  pub ws : Option ℕ
  pub subscribed_ids : List Text
  pub retry_delay : ℕ
  pub retry_timer : Option ℕ
  pub destroyed : Bool
  pub status : WsStatus
  pub listeners : List ℕ
  -- The browser: what a number stands for, and the next number to be given out.
  pub sockets : ℕ → Socket
  pub next_socket : ℕ
  pub timers : ℕ → Option ℕ
  pub next_timer : ℕ
  -- What went out, the newest last for listeners, first for sockets.
  pub notified : List (ℕ × WsStatus)
  pub sent : List (ℕ × SubscribeRequest)
  -- The stores, and `env.wsGatewayUrl`.
  pub token : Option Text
  pub gateway_url : Text
  pub telemetry : Telemetry
  pub alerts : Alerts

abbrev pub all_streams : List Text
all_streams = codes "telemetry" ∷ codes "event" ∷ codes "alert" ∷ codes "assistance" ∷ []

abbrev pub first_delay : ℕ
first_delay = 1000

abbrev pub max_delay : ℕ
max_delay = 30000

abbrev pub is_empty {ℓ} : {A : Type ℓ} → List A → Bool
is_empty [] = true
is_empty (_ ∷ _) = false

abbrev pub same_status : WsStatus → WsStatus → Bool
same_status disconnected disconnected = true
same_status connecting connecting = true
same_status connected connected = true
same_status _ _ = false

unfoldable pub set_status : WsStatus → World → World
set_status s w =
    if same_status w.status s
    then w
    else record w { status = s; notified = w.notified ++ map (λ fn. (fn, s)) w.listeners }

-- `if (this.retryTimer) { clearTimeout(this.retryTimer); this.retryTimer = null }`
unfoldable pub clear_retry : World → World
clear_retry w = elim w.retry_timer [
  | none ↦ w
  | some t ↦ record w { timers = update w.timers t none; retry_timer = none }
]

-- The third `if` of `_teardown`.
unfoldable pub close_ws : World → World
close_ws w = elim w.ws [
  | none ↦ w
  | some i ↦ record w { sockets = update w.sockets i (shut (w.sockets i)); ws = none }
]

-- The second `if` of `_reconnect`.
unfoldable pub close_live_ws : World → World
close_live_ws w = elim w.ws [
  | none ↦ w
  | some i ↦
      if is_closed (w.sockets i).ready
      then w
      else record w { sockets = update w.sockets i (shut (w.sockets i)); ws = none }
]

abbrev pub socket_url : World → Text
socket_url w = w.gateway_url ++ (codes "/ws?token=" ++ get_or [] w.token)

-- `this.ws = new WebSocket(url)`, and its handlers.
unfoldable pub new_socket : World → World
new_socket w = record w {
  sockets =
      update w.sockets w.next_socket
        (record { ready = ReadyState.connecting; has_onclose = true; url = socket_url w });
  ws = some w.next_socket;
  next_socket = w.next_socket + 1;
}

unfoldable pub open_ws : World → World
open_ws w =
    if w.destroyed || is_empty w.subscribed_ids then w else new_socket (set_status connecting w)

unfoldable pub teardown : World → World
teardown w =
    set_status disconnected
      (close_ws (clear_retry (record w { destroyed = true; retry_delay = first_delay })))

unfoldable pub reconnect : World → World
reconnect w = open_ws (close_live_ws (clear_retry w))

unfoldable pub subscribe : Text → World → World
subscribe v w =
    if has v w.subscribed_ids
    then w
    else reconnect (record w { subscribed_ids = add v w.subscribed_ids; destroyed = false })

unfoldable pub unsubscribe : Text → World → World
unsubscribe v w =
    if has v w.subscribed_ids
    then (let w' : World = record w { subscribed_ids = delete v w.subscribed_ids } in
        if is_empty w'.subscribed_ids then teardown w' else reconnect w')
    else w

-- `setTimeout` in `_scheduleReconnect`.
unfoldable pub set_retry : World → World
set_retry w = record w {
  timers = update w.timers w.next_timer (some w.retry_delay);
  retry_timer = some w.next_timer;
  next_timer = w.next_timer + 1;
}

unfoldable pub schedule_reconnect : World → World
schedule_reconnect w =
    if w.destroyed || is_empty w.subscribed_ids then w else set_retry (set_status connecting w)

-- The callback of that timer.
unfoldable pub on_retry : World → World
on_retry w = open_ws (record w { retry_delay = min (w.retry_delay * 2) max_delay })

abbrev pub request : World → SubscribeRequest
request w = record { vehicle_ids = w.subscribed_ids; streams = all_streams; format = codes "json" }

-- `send` throws on a socket that is still connecting, and drops the text on one that closes.
unfoldable pub send : World → World
send w = elim w.ws [
  | none ↦ w
  | some i ↦ elim (w.sockets i).ready [
    | ReadyState.opened ↦ record w { sent = (i, request w) ∷ w.sent }
    | _ ↦ w
  ]
]

unfoldable pub on_open : World → World
on_open w = send (set_status connected (record w { retry_delay = first_delay }))

unfoldable pub on_close : World → World
on_close w = schedule_reconnect (set_status disconnected w)

-- The data of a message event: a text, and what `JSON.parse` makes of it, or else binary data.
pub data Message : Type 0 where
  binary : Message
  text : Option LiveFrame → Message

abbrev pub assistance_alert : Text → Text → AlertFrame
assistance_alert device reason = record {
  device = device;
  level = codes "warning";
  message = codes "Assistance requested: " ++ reason;
}

unfoldable pub on_message : Message → World → World
on_message binary w = w
on_message (text none) w = w
on_message (text (some (telemetry f))) w = record w {
  telemetry = Telemetry.push f.vehicle_id f w.telemetry;
}
on_message (text (some (alert a))) w = record w { alerts = Alerts.push a w.alerts }
on_message (text (some (assistance_request r))) w = record w {
  alerts = Alerts.push (assistance_alert r.device r.reason) w.alerts;
}
on_message (text (some other)) w = w

-- `onStatusChange`, and the function that it returns. `Set<StatusListener>` keeps one of each.
unfoldable pub add_listener : ℕ → List ℕ → List ℕ
add_listener fn [] = fn ∷ []
add_listener fn (g ∷ gs) = if g == fn then g ∷ gs else g ∷ add_listener fn gs

unfoldable pub delete_listener : ℕ → List ℕ → List ℕ
delete_listener fn [] = []
delete_listener fn (g ∷ gs) = if g == fn then delete_listener fn gs else g ∷ delete_listener fn gs

unfoldable pub on_status_change : ℕ → World → World
on_status_change fn w = record w { listeners = add_listener fn w.listeners }

unfoldable pub off_status_change : ℕ → World → World
off_status_change fn w = record w { listeners = delete_listener fn w.listeners }
