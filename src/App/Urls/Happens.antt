-- ===== src/App/Urls/Happens.antt =====
-- What the browser does to the manager leaves the addresses of the sockets, and a timer opens the next.
use ops_sys.Base.{ℕ, refl, Option, none, some, arith, not, min, ◌*◌}
use ops_sys.Ws.Browser.{ReadyState, opened, closing, is_closed, update}
use ops_sys.Ws.{
  World, set_status, on_open, send, on_close, schedule_reconnect, set_retry, on_retry, Message,
  binary, text, on_message, max_delay,
}
use ops_sys.Telemetry
use ops_sys.Frames.{LiveFrame, alert, assistance_request, other}
use ops_sys.App.Browser.{
  BrowserEvent, socket_opens, socket_closing, socket_closes, socket_receives, timer_fires,
  store_flushes, happens, is_connecting, is_opened,
}
use ops_sys.Ws.Steps.{becomes, closes_socket, fires_timer}
use ops_sys.App.Urls.{Makes, Same, none_made, composed, unchanged, if_then, open_ws-Makes}

becomes-Same : (r : ReadyState) (i : ℕ) (w : World) → Same w (becomes r i w)
becomes-Same r i w = record { token = refl; gateway = refl; next = refl; urls = λ j. ground arith }

on_open-Same : (w : World) → Same w (on_open w)
unfolding on_open send set_status
on_open-Same w = record {
  token = ground arith;
  gateway = ground arith;
  next = ground arith;
  urls = λ j. ground arith;
}

closes-Same : (i : ℕ) (w : World) → Same w (closes_socket i w)
unfolding on_close schedule_reconnect set_retry set_status
closes-Same i w = record {
  token = ground arith;
  gateway = ground arith;
  next = ground arith;
  urls = λ j. ground arith;
}

fires-Makes : (t : ℕ) (w : World) → Makes w (fires_timer t w)
unfolding on_retry
fires-Makes t w =
    let u : World = record w {
      timers = update w.timers t none;
      retry_delay = min (w.retry_delay * 2) max_delay;
    } in
    composed {w = w} {u = u}
      (none_made (record { token = refl; gateway = refl; next = refl; urls = λ i. refl }))
      (open_ws-Makes u)

on_message-Same : (m : Message) (w : World) → Same w (on_message m w)
unfolding on_message
on_message-Same binary w = unchanged w
on_message-Same (text none) w = unchanged w
on_message-Same (text (some (LiveFrame.telemetry f))) w = record {
  token = refl;
  gateway = refl;
  next = refl;
  urls = λ i. refl;
}
on_message-Same (text (some (alert a))) w = record {
  token = refl;
  gateway = refl;
  next = refl;
  urls = λ i. refl;
}
on_message-Same (text (some (assistance_request r))) w = record {
  token = refl;
  gateway = refl;
  next = refl;
  urls = λ i. refl;
}
on_message-Same (text (some other)) w = unchanged w

pub happens-Makes : (e : BrowserEvent) (w : World) → Makes w (happens e w)
unfolding happens Telemetry.step
happens-Makes (socket_opens i) w =
    if_then (Makes w) (is_connecting (w.sockets i).ready)
      (composed (none_made (becomes-Same opened i w))
        (none_made (on_open-Same (becomes opened i w))))
      (none_made (unchanged w))
happens-Makes (socket_closing i) w =
    if_then (Makes w) (is_opened (w.sockets i).ready) (none_made (becomes-Same closing i w))
      (none_made (unchanged w))
happens-Makes (socket_closes i) w =
    if_then (Makes w) (not (is_closed (w.sockets i).ready)) (none_made (closes-Same i w))
      (none_made (unchanged w))
happens-Makes (socket_receives i m) w =
    if_then (Makes w) (is_opened (w.sockets i).ready) (none_made (on_message-Same m w))
      (none_made (unchanged w))
happens-Makes (timer_fires t) w = go (w.timers t)
  where
    go : (o : Option ℕ) → Makes w (elim o as (λ _. World) [ none ↦ w | some d ↦ fires_timer t w ])
    go none = none_made (unchanged w)
    go (some d) = fires-Makes t w
happens-Makes store_flushes w =
    none_made (record { token = refl; gateway = refl; next = refl; urls = λ i. refl })
