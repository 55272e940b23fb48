-- ===== src/App/Manager.antt =====
-- What the calls of the pages and the browser leave of the manager: the token, the listeners and, for
-- the browser, the ids; and that the manager can reach what they make of it.
use ops_sys.Base.{
  ℕ, true, false, ◌≡◌, refl, ◌∙◌, Option, none, some, List, [], ◌∷◌, arith, not, if_holds,
}
use ops_sys.Base.Text.{Text}
use ops_sys.Fleet.{Vehicle}
use ops_sys.Frames.{LiveFrame, alert, assistance_request, other}
use ops_sys.Telemetry
use ops_sys.Telemetry.{animation_frame}
use ops_sys.Ws.Browser.{ReadyState, opened, closing, closed, is_closed}
use ops_sys.Ws.{
  World, subscribe, unsubscribe, reconnect, clear_retry, close_live_ws, close_ws, open_ws,
  set_status, new_socket, teardown, on_open, send, on_close, schedule_reconnect, set_retry,
  on_retry, Message, binary, text, on_message,
}
use ops_sys.Ws.Steps.{
  Step, opens, receives, begins_to_close, closes, fires, stores_change, Reach, next, becomes,
  closes_socket, fires_timer,
}
use ops_sys.Base.Sets.{add, delete}
use ops_sys.Ws.Ids.{Call, subscribes, unsubscribes, run}
use ops_sys.Project.Devices.{mount, unmount}
use ops_sys.App.Browser.{
  BrowserEvent, socket_opens, socket_closing, socket_closes, socket_receives, timer_fires,
  store_flushes, happens, is_connecting, is_opened,
}

-- The token and the listeners are those of before.
pub record Keeps (w u : World) : Type 0 where
  pub token : u.token ≡ w.token
  pub listeners : u.listeners ≡ w.listeners

kept : (w : World) → Keeps w w
kept w = record { token = refl; listeners = refl }

then_kept : {w u t : World} → Keeps w u → Keeps u t → Keeps w t
then_kept h k = record { token = k.token ∙ h.token; listeners = k.listeners ∙ h.listeners }

reconnect-Keeps : (w : World) → Keeps w (reconnect w)
unfolding reconnect clear_retry close_live_ws open_ws new_socket set_status
reconnect-Keeps w = record { token = ground arith; listeners = ground arith }

teardown-Keeps : (w : World) → Keeps w (teardown w)
unfolding teardown clear_retry close_ws set_status
teardown-Keeps w = record { token = ground arith; listeners = ground arith }

subscribe-Keeps : (v : Text) (w : World) → Keeps w (subscribe v w)
unfolding subscribe
subscribe-Keeps v w =
    let w' : World = record w { subscribed_ids = add v w.subscribed_ids; destroyed = false } in
    record {
      token = ground (arith, (reconnect-Keeps w').token);
      listeners = ground (arith, (reconnect-Keeps w').listeners);
    }

unsubscribe-Keeps : (v : Text) (w : World) → Keeps w (unsubscribe v w)
unfolding unsubscribe
unsubscribe-Keeps v w =
    let w' : World = record w { subscribed_ids = delete v w.subscribed_ids } in
    record {
      token = ground (arith, (reconnect-Keeps w').token, (teardown-Keeps w').token);
      listeners = ground (arith, (reconnect-Keeps w').listeners, (teardown-Keeps w').listeners);
    }

run-Keeps : (w : World) (cs : List Call) → Keeps w (run w cs)
unfolding run
run-Keeps w [] = kept w
run-Keeps w (subscribes v ∷ cs) = then_kept (subscribe-Keeps v w) (run-Keeps (subscribe v w) cs)
run-Keeps w (unsubscribes v ∷ cs) =
    then_kept (unsubscribe-Keeps v w) (run-Keeps (unsubscribe v w) cs)

pub mount-Keeps : (ds : List Vehicle) (w : World) → Keeps w (mount ds w)
unfolding mount
mount-Keeps ds w = run-Keeps w _

pub unmount-Keeps : (ds : List Vehicle) (w : World) → Keeps w (unmount ds w)
unfolding unmount
unmount-Keeps ds w = run-Keeps w _

run-Reach : {w : World} (cs : List Call) (u : World) → Reach w u → Reach w (run u cs)
unfolding run
run-Reach [] u r = r
run-Reach (subscribes v ∷ cs) u r = run-Reach cs (subscribe v u) (next r (Step.subscribes v))
run-Reach (unsubscribes v ∷ cs) u r = run-Reach cs (unsubscribe v u) (next r (Step.unsubscribes v))

pub mount-Reach : {w u : World} (ds : List Vehicle) → Reach w u → Reach w (mount ds u)
unfolding mount
mount-Reach ds r = run-Reach _ _ r

pub unmount-Reach : {w u : World} (ds : List Vehicle) → Reach w u → Reach w (unmount ds u)
unfolding unmount
unmount-Reach ds r = run-Reach _ _ r

-- The browser also leaves the ids.
pub record Leaves (w u : World) : Type 0 where
  pub ids : u.subscribed_ids ≡ w.subscribed_ids
  pub keeps : Keeps w u

on_open-Leaves : (w : World) → Leaves w (on_open w)
unfolding on_open send set_status
on_open-Leaves w = record {
  ids = ground arith;
  keeps = record { token = ground arith; listeners = ground arith };
}

closes-Leaves : (i : ℕ) (w : World) → Leaves w (closes_socket i w)
unfolding on_close schedule_reconnect set_retry set_status
closes-Leaves i w = record {
  ids = ground arith;
  keeps = record { token = ground arith; listeners = ground arith };
}

fires-Leaves : (t : ℕ) (w : World) → Leaves w (fires_timer t w)
unfolding on_retry open_ws new_socket set_status
fires-Leaves t w = record {
  ids = ground arith;
  keeps = record { token = ground arith; listeners = ground arith };
}

left : (w : World) → Leaves w w
left w = record { ids = refl; keeps = kept w }

on_message-Leaves : (m : Message) (w : World) → Leaves w (on_message m w)
unfolding on_message
on_message-Leaves binary w = left w
on_message-Leaves (text none) w = left w
on_message-Leaves (text (some (LiveFrame.telemetry f))) w = record {
  ids = refl;
  keeps = record { token = refl; listeners = refl };
}
on_message-Leaves (text (some (alert a))) w = record {
  ids = refl;
  keeps = record { token = refl; listeners = refl };
}
on_message-Leaves (text (some (assistance_request r))) w = record {
  ids = refl;
  keeps = record { token = refl; listeners = refl };
}
on_message-Leaves (text (some other)) w = left w

connecting_is : (r : ReadyState) → is_connecting r ≡ true → r ≡ ReadyState.connecting
connecting_is ReadyState.connecting h = refl
connecting_is opened h = ground arith
connecting_is closing h = ground arith
connecting_is closed h = ground arith

opened_is : (r : ReadyState) → is_opened r ≡ true → r ≡ opened
opened_is opened h = refl
opened_is ReadyState.connecting h = ground arith
opened_is closing h = ground arith
opened_is closed h = ground arith

-- What the browser does is a step of the manager, which leaves its ids, its token and its listeners.
pub record Happened (w u : World) : Type 0 where
  pub leaves : Leaves w u
  pub reached : {v : World} → Reach v w → Reach v u

nothing-Happened : (w : World) → Happened w w
nothing-Happened w = record { leaves = left w; reached = λ r. r }

becomes-Leaves :
    (r : ReadyState) (i : ℕ) (w : World) {u : World} → Leaves (becomes r i w) u → Leaves w u
becomes-Leaves r i w h = record {
  ids = h.ids;
  keeps = record { token = h.keeps.token; listeners = h.keeps.listeners };
}

pub happens-Happened : (e : BrowserEvent) (w : World) → Happened w (happens e w)
unfolding happens
happens-Happened (socket_opens i) w =
    if_holds (Happened w) (is_connecting (w.sockets i).ready)
      (λ h. record {
        leaves = becomes-Leaves opened i w (on_open-Leaves (becomes opened i w));
        reached = λ r. next r (opens i (connecting_is (w.sockets i).ready h));
      })
      (λ _. nothing-Happened w)
happens-Happened (socket_closing i) w =
    if_holds (Happened w) (is_opened (w.sockets i).ready)
      (λ h. record {
        leaves = becomes-Leaves closing i w (left (becomes closing i w));
        reached = λ r. next r (begins_to_close i (opened_is (w.sockets i).ready h));
      })
      (λ _. nothing-Happened w)
happens-Happened (socket_closes i) w =
    if_holds (Happened w) (not (is_closed (w.sockets i).ready))
      (λ h. record {
        leaves = closes-Leaves i w;
        reached = λ r. next r (closes i (λ e. ground (arith, e)));
      })
      (λ _. nothing-Happened w)
happens-Happened (socket_receives i m) w =
    if_holds (Happened w) (is_opened (w.sockets i).ready)
      (λ h. record {
        leaves = on_message-Leaves m w;
        reached = λ r. next r (receives i m (opened_is (w.sockets i).ready h));
      })
      (λ _. nothing-Happened w)
happens-Happened (timer_fires t) w = go (w.timers t) refl
  where
    go :
        (o : Option ℕ)
        → w.timers t ≡ o
        → Happened w (elim o [ none ↦ w | some d ↦ fires_timer t w ])
    go none e = nothing-Happened w
    go (some d) e = record { leaves = fires-Leaves t w; reached = λ r. next r (fires t d e) }
happens-Happened store_flushes w = record {
  leaves = record { ids = refl; keeps = record { token = refl; listeners = refl } };
  reached =
      λ r. next r (stores_change w.token (Telemetry.step w.telemetry animation_frame) w.alerts);
}
