-- ===== src/Ws/Tests.antt =====
-- The manager on small histories, and the theorems about it at one.
use ops_sys.Base.{ℕ, ◌≡◌, ◌≢◌, refl, none, some, List, [], ◌∷◌, take}
use ops_sys.Base.Text.{Text, codes, text_eq}
use ops_sys.Base.Sets.{has, add, delete}
use ops_sys.Frames.{TelemetryFrame, LiveFrame, assistance_request}
use ops_sys.Telemetry
use ops_sys.Telemetry.Buffers.{buffer_of}
use ops_sys.Ws.Browser.{ReadyState, opened, closed}
use ops_sys.Ws.{
  World, disconnected, connecting, connected, request, set_status, clear_retry, close_ws,
  close_live_ws, new_socket, open_ws, teardown, reconnect, subscribe, unsubscribe, set_retry,
  schedule_reconnect, send, on_open, on_close, on_status_change, Message, binary, text,
  add_listener,
}
use ops_sys.Ws.Steps.{initial, becomes, closes_socket, subscribes, opens, Reach, here, next}
use ops_sys.Ws.Phases.{last_sent}
use ops_sys.Ws.Service
use ops_sys.Ws.Service.{Moves, nothing_wanted, labels}
use ops_sys.Ws.Service.Simulation.{Reach-Moves}
use ops_sys.Ws.Recovery.{Recovers, Reach-Recovers}
use ops_sys.Ws.Safety.{Only, Going, Shown, Reach-Only, Reach-Going, Reach-Shown, Reach-told}
use ops_sys.Ws.Backoff.{armed, attempts, attempts-delay}
use ops_sys.Ws.Ids
use ops_sys.Ws.Ids.{Call, decided, asks, has-run, unsubscribe-asks, subscribe_again}
use ops_sys.Ws.Dispatch.{receive_all, frames_of, alerts_of, receive_all_lem}
use ops_sys.Ws.Listeners.{shown_by, start, then_on, shown_by-status}

abbrev url : Text
url = codes "ws://localhost:8084"

abbrev drone : Text
drone = codes "drone"

abbrev rover : Text
rover = codes "rover"

abbrev fresh : World
fresh = initial url

abbrev asked : World
asked = subscribe drone fresh

abbrev open_world : World
open_world = on_open (becomes opened 0 asked)

abbrev lost : World
lost = closes_socket 0 open_world

abbrev asked-Reach : Reach fresh asked
asked-Reach = next here (subscribes drone)

asked_connecting : (asked.sockets 0).ready ≡ ReadyState.connecting
unfolding subscribe reconnect clear_retry close_live_ws open_ws set_status new_socket has add
asked_connecting = refl

open_opened : (open_world.sockets 0).ready ≡ opened
unfolding subscribe reconnect clear_retry close_live_ws open_ws set_status new_socket has add
    on_open send
open_opened = refl

abbrev open-Reach : Reach fresh open_world
open-Reach = next asked-Reach (opens 0 asked_connecting)

-- Connected, told of the drone, and after the loss a retry in a second.
open_shows :
    (open_world.status ≡ connected)
    × (last_sent open_world ≡ some (0, request open_world))
    × (lost.status ≡ connecting)
    × (lost.timers 1 ≡ some 1000)
unfolding subscribe reconnect clear_retry close_live_ws open_ws set_status new_socket has add
    on_open send on_close schedule_reconnect set_retry
open_shows = (refl, refl, refl, refl)

-- A second vehicle opens a second socket, and the last `unsubscribe` closes it.
second_socket :
    ((subscribe rover open_world).ws ≡ some 1)
    × (((unsubscribe drone open_world).sockets 0).ready ≡ ReadyState.closing)
    × ((unsubscribe drone open_world).status ≡ disconnected)
unfolding subscribe unsubscribe reconnect teardown clear_retry close_ws close_live_ws open_ws
    set_status new_socket has add delete on_open send text_eq
second_socket = (refl, refl, refl)

Reach-Only_example : Only open_world
Reach-Only_example = Reach-Only url open-Reach

Reach-told_example :
    (open_world.ws ≡ some 0) × (last_sent open_world ≡ some (0, request open_world))
Reach-told_example = Reach-told url 0 open-Reach open_opened

asked_nonempty : asked.subscribed_ids ≢ []
unfolding subscribe reconnect clear_retry close_live_ws open_ws set_status new_socket has add
asked_nonempty e = cc

Reach-Going_example : Going asked
Reach-Going_example = Reach-Going url asked-Reach asked_nonempty

Reach-Shown_example : Shown open_world
Reach-Shown_example = Reach-Shown url open-Reach

-- Six failures in a row: sixty-four seconds, cut to thirty.
attempts-delay_example :
    let u = attempts 6 open_world in
    (j : ℕ) × (u.ws ≡ some j)
    × ((u.sockets j).ready ≢ closed)
    × (armed (closes_socket j u) ≡ some 30000)
attempts-delay_example = attempts-delay url 0 6 asked-Reach asked_connecting

abbrev calls : List Call
calls = Ids.subscribes drone ∷ Ids.subscribes rover ∷ Ids.unsubscribes drone ∷ []

abbrev frame : TelemetryFrame
frame = record { vehicle_id = drone; ts = 7; lat = 0; lon = 0; alt = 0; seq = 1; payload_b64 = [] }

abbrev messages : List Message
messages =
    binary
    ∷ text (some (LiveFrame.telemetry frame))
    ∷ text none
    ∷ text (
        some
          (assistance_request (record { device = rover; request_id = []; reason = codes "fog" })))
    ∷ []

receive_all_lem_example :
    (Telemetry.get_buffer drone (receive_all messages fresh).telemetry
      ≡ buffer_of (frames_of drone [] messages))
    × ((receive_all messages fresh).alerts ≡ take 200 (alerts_of [] messages))
receive_all_lem_example = receive_all_lem messages fresh drone refl refl

abbrev watched : World
watched = on_status_change 5 fresh

shown_by-status_example :
    shown_by 5 disconnected (subscribe drone watched).notified ≡ (subscribe drone watched).status
unfolding on_status_change subscribe reconnect clear_retry close_live_ws open_ws set_status
    new_socket has add add_listener
shown_by-status_example = shown_by-status 5 fresh tt (then_on start (subscribes drone) refl)

Reach-Moves_example : Moves nothing_wanted (labels open-Reach) (Service.view open_world)
Reach-Moves_example = Reach-Moves url open-Reach

Reach-Recovers_example : Recovers 3 asked
Reach-Recovers_example = Reach-Recovers url asked-Reach asked_nonempty
