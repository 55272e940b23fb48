-- ===== src/App/Urls.antt =====
-- Which address a socket of the manager is opened with, and that it keeps it.
pub mod Happens
use ops_sys.Base.{
  ℕ, Bool, true, false, ◌≡◌, ◌≤◌, ◌<◌, refl, ◌∙◌, Option, none, some, List, [], ◌∷◌, arith, ◌||◌,
  not, dec_lt, min, ◌*◌, if◌then◌else◌,
}
use ops_sys.Base.Text.{Text}
use ops_sys.Base.Sets.{has, add, delete}
use ops_sys.Ws.Browser.{Socket, ReadyState, opened, closing, is_closed, update}
use ops_sys.Ws.{
  World, WsStatus, socket_url, subscribe, unsubscribe, reconnect, clear_retry, close_live_ws,
  close_ws, open_ws, set_status, new_socket, teardown, on_open, send, on_close, schedule_reconnect,
  set_retry, on_retry, Message, binary, text, on_message, disconnected, connecting, first_delay,
  max_delay, is_empty,
}
use ops_sys.Ws.Ids.{Call, subscribes, unsubscribes, run}
use ops_sys.Fleet.{Vehicle}
use ops_sys.Telemetry
use ops_sys.Frames.{LiveFrame, alert, assistance_request, other}
use ops_sys.Project.Devices.{mount, unmount}
use ops_sys.App.Browser.{
  BrowserEvent, socket_opens, socket_closing, socket_closes, socket_receives, timer_fires,
  store_flushes, happens, is_connecting, is_opened,
}
use ops_sys.Ws.Steps.{becomes, closes_socket, fires_timer}

-- From a world to a later one: a socket that was given out keeps its address, and one that is given
-- out gets that of the token and the gateway.
pub record Makes (w u : World) : Type 0 where
  pub token : u.token ≡ w.token
  pub gateway : u.gateway_url ≡ w.gateway_url
  pub grows : w.next_socket ≤ u.next_socket
  pub old : (i : ℕ) → i < w.next_socket → (u.sockets i).url ≡ (w.sockets i).url
  pub made : (i : ℕ) → w.next_socket ≤ i → i < u.next_socket → (u.sockets i).url ≡ socket_url w
  pub beyond : (i : ℕ) → u.next_socket ≤ i → (u.sockets i).url ≡ (w.sockets i).url

-- Nothing is given out.
pub record Same (w u : World) : Type 0 where
  pub token : u.token ≡ w.token
  pub gateway : u.gateway_url ≡ w.gateway_url
  pub next : u.next_socket ≡ w.next_socket
  pub urls : (i : ℕ) → (u.sockets i).url ≡ (w.sockets i).url

pub none_made : {w u : World} → Same w u → Makes w u
none_made {w} {u} h = record {
  token = h.token;
  gateway = h.gateway;
  grows = omega (arith, h.next);
  old = λ i l. h.urls i;
  made = λ i l k. absurd (omega (arith, h.next, l, k));
  beyond = λ i l. h.urls i;
}

same_url :
    (w u : World) → u.token ≡ w.token → u.gateway_url ≡ w.gateway_url → socket_url u ≡ socket_url w
same_url w u e f = rw (e, f) refl

pub composed : {w u t : World} → Makes w u → Makes u t → Makes w t
composed {w} {u} {t} h k = record {
  token = k.token ∙ h.token;
  gateway = k.gateway ∙ h.gateway;
  grows = omega (arith, h.grows, k.grows);
  old = λ i l. k.old i (omega (arith, l, h.grows)) ∙ h.old i l;
  made = λ i l m. elim (dec_lt i u.next_socket) as (λ _. (t.sockets i).url ≡ socket_url w) [
    | yes p ↦ k.old i p ∙ h.made i l p
    | no n ↦ k.made i (omega (arith, n)) m ∙ same_url w u h.token h.gateway
  ];
  beyond = λ i l. k.beyond i l ∙ h.beyond i (omega (arith, l, k.grows));
}

url-update :
    (f : ℕ → Socket) (i : ℕ) (s : Socket)
    → s.url ≡ (f i).url
    → (j : ℕ) → (update f i s j).url ≡ (f j).url
url-update f i s e j = ground (arith, e)

clear_retry-Same : (w : World) → Same w (clear_retry w)
unfolding clear_retry
clear_retry-Same w = record {
  token = ground arith;
  gateway = ground arith;
  next = ground arith;
  urls = λ i. ground arith;
}

close_ws-Same : (w : World) → Same w (close_ws w)
unfolding close_ws
close_ws-Same w = record {
  token = ground arith;
  gateway = ground arith;
  next = ground arith;
  urls = λ i. ground arith;
}

close_live_ws-Same : (w : World) → Same w (close_live_ws w)
unfolding close_live_ws
close_live_ws-Same w = record {
  token = ground arith;
  gateway = ground arith;
  next = ground arith;
  urls = λ i. ground arith;
}

set_status-Same : (s : WsStatus) (w : World) → Same w (set_status s w)
unfolding set_status
set_status-Same s w = record {
  token = ground arith;
  gateway = ground arith;
  next = ground arith;
  urls = λ i. ground arith;
}

new_socket-Makes : (w : World) → Makes w (new_socket w)
unfolding new_socket
new_socket-Makes w = record {
  token = refl;
  gateway = refl;
  grows = omega arith;
  old = λ i l. ground (arith, l);
  made = λ i l m. ground (arith, l, m);
  beyond = λ i l. ground (arith, l);
}

if_then : (P : World → Type 0) (b : Bool) {u t : World} → P u → P t → P (if b then u else t)
if_then P true h k = h
if_then P false h k = k

pub unchanged : (w : World) → Same w w
unchanged w = record { token = refl; gateway = refl; next = refl; urls = λ i. refl }

open_ws-Makes : (w : World) → Makes w (open_ws w)
unfolding open_ws
open_ws-Makes w =
    if_then (Makes w) (w.destroyed || is_empty w.subscribed_ids) (none_made (unchanged w)) (
      composed (none_made (set_status-Same connecting w))
        (new_socket-Makes (set_status connecting w)))

pub reconnect-Makes : (w : World) → Makes w (reconnect w)
unfolding reconnect
reconnect-Makes w =
    let u = clear_retry w in
    composed (none_made (clear_retry-Same w))
      (composed (none_made (close_live_ws-Same u)) (open_ws-Makes (close_live_ws u)))

cleared : (w : World) → Same w (record w { destroyed = true; retry_delay = first_delay })
cleared w = record { token = refl; gateway = refl; next = refl; urls = λ i. refl }

teardown-Makes : (w : World) → Makes w (teardown w)
unfolding teardown
teardown-Makes w =
    let u : World = record w { destroyed = true; retry_delay = first_delay } in
    composed (none_made (cleared w)) (
      composed (none_made (clear_retry-Same u)) (
        composed (none_made (close_ws-Same (clear_retry u)))
          (none_made (set_status-Same disconnected (close_ws (clear_retry u))))))

subscribe-Makes : (v : Text) (w : World) → Makes w (subscribe v w)
unfolding subscribe
subscribe-Makes v w =
    let u : World = record w { subscribed_ids = add v w.subscribed_ids; destroyed = false } in
    if_then (Makes w) (has v w.subscribed_ids) (none_made (unchanged w)) (
      composed {w = w} {u = u}
        (none_made (record { token = refl; gateway = refl; next = refl; urls = λ i. refl }))
        (reconnect-Makes u))

unsubscribe-Makes : (v : Text) (w : World) → Makes w (unsubscribe v w)
unfolding unsubscribe
unsubscribe-Makes v w =
    let u : World = record w { subscribed_ids = delete v w.subscribed_ids } in
    let s : Makes w u =
      none_made (record { token = refl; gateway = refl; next = refl; urls = λ i. refl }) in
    if_then (Makes w) (has v w.subscribed_ids)
      (if_then (Makes w) (is_empty u.subscribed_ids) (composed s (teardown-Makes u))
        (composed s (reconnect-Makes u)))
      (none_made (unchanged w))

run-Makes : (w : World) (cs : List Call) → Makes w (run w cs)
unfolding run
run-Makes w [] = none_made (unchanged w)
run-Makes w (subscribes v ∷ cs) = composed (subscribe-Makes v w) (run-Makes (subscribe v w) cs)
run-Makes w (unsubscribes v ∷ cs) =
    composed (unsubscribe-Makes v w) (run-Makes (unsubscribe v w) cs)

pub mount-Makes : (ds : List Vehicle) (w : World) → Makes w (mount ds w)
unfolding mount
mount-Makes ds w = run-Makes w _

pub unmount-Makes : (ds : List Vehicle) (w : World) → Makes w (unmount ds w)
unfolding unmount
unmount-Makes ds w = run-Makes w _
