-- ===== src/Ws/Phases/Settle.antt =====
-- From any phase the manager comes to rest by closing what it has, and leaves rest by a new socket
-- or a new timer.
use ops_sys.Base.{ℕ, true, false, ◌≡◌, sym, [], arith, ℕ_discrete, subst}
use ops_sys.Ws.{
  World, WsStatus, disconnected, first_delay, set_status, clear_retry, close_ws, close_live_ws,
  new_socket, open_ws, teardown, reconnect, set_retry, schedule_reconnect,
}
use ops_sys.Ws.Phases.{
  is_dead, Tidy, Quiet, Wanted, Idle, Waiting, Live, Phase, idle, waiting, live,
}

pub Phase-Tidy : (w : World) → Phase w → Tidy w
Phase-Tidy w (idle p) = record {
  others = λ j _. p.quiet.dead j;
  timers_owned = λ t _. p.quiet.no_timer t;
  delay = p.quiet.delay;
}
Phase-Tidy w (waiting t p) = record {
  others = λ j _. p.dead j;
  timers_owned = λ t' h. p.no_other t' (λ e. h (ground (arith, p.owned, e)));
  delay = p.delay;
}
Phase-Tidy w (live i p) = record {
  others = λ j h. p.others j (λ e. h (ground (arith, p.owned, e)));
  timers_owned = λ t _. p.no_timer t;
  delay = p.delay;
}

-- Only the socket of a connection is alive.
pub Phase-Live : (i : ℕ) (w : World) → Phase w → is_dead (w.sockets i) ≡ false → Live i w
Phase-Live i w (idle p) e = absurd (ground (arith, p.quiet.dead i))
Phase-Live i w (waiting t p) e = absurd (ground (arith, p.dead i))
Phase-Live i w (live j p) e = elim (ℕ_discrete j i) [
  | yes same ↦ subst (λ (k : ℕ). Live k w) same p
  | no apart ↦ absurd (ground (arith, p.others i (λ h. apart (sym h))))
]

-- `_reconnect` closes what is alive before it opens a socket.
pub settle_live : (w : World) → Tidy w → Quiet (close_live_ws (clear_retry w))
unfolding close_live_ws clear_retry
settle_live w h = record {
  dead = λ j. ground (arith, h.others j);
  no_timer = λ t. ground (arith, h.timers_owned t);
  delay = ground (arith, h.delay);
}

pub settle : (w : World) → Tidy w → Quiet (close_ws (clear_retry w))
unfolding close_ws clear_retry
settle w h = record {
  dead = λ j. ground (arith, h.others j);
  no_timer = λ t. ground (arith, h.timers_owned t);
  delay = ground (arith, h.delay);
}

settle_live-Wanted :
    (w : World)
    → Wanted w.subscribed_ids w.destroyed
    → let u = close_live_ws (clear_retry w) in Wanted u.subscribed_ids u.destroyed
unfolding close_live_ws clear_retry
settle_live-Wanted w h = ground arith

-- A manager at rest that is wanted opens one connection.
pub open_ws-Live :
    (w : World) → Quiet w → Wanted w.subscribed_ids w.destroyed → (i : ℕ) × Live i (open_ws w)
unfolding open_ws set_status new_socket
open_ws-Live w q h = (
  w.next_socket,
  record {
    wanted = ground (arith, h);
    owned = ground (arith, h);
    calls_back = ground (arith, h);
    alive = ground (arith, h);
    others = λ j. ground (arith, h, q.dead j);
    no_timer = λ t. ground (arith, h, q.no_timer t);
    shown = ground (arith, h);
    told = ground (arith, h);
    delay = ground (arith, h, q.delay);
  },
)

-- Or it sets one timer.
pub schedule_reconnect-Waiting :
    (w : World)
    → Quiet w
    → Wanted w.subscribed_ids w.destroyed
    → (t : ℕ) × Waiting t (schedule_reconnect w)
unfolding schedule_reconnect set_status set_retry
schedule_reconnect-Waiting w q h = (
  w.next_timer,
  record {
    wanted = ground (arith, h);
    dead = λ j. ground (arith, h, q.dead j);
    owned = ground (arith, h);
    pending = ground (arith, h);
    no_other = λ t. ground (arith, h, q.no_timer t);
    shown = ground (arith, h);
    delay = ground (arith, h, q.delay);
  },
)

pub reconnect-Live :
    (w : World) → Tidy w → Wanted w.subscribed_ids w.destroyed → (i : ℕ) × Live i (reconnect w)
unfolding reconnect
reconnect-Live w q h =
    open_ws-Live (close_live_ws (clear_retry w)) (settle_live w q) (settle_live-Wanted w h)

pub set_status-Quiet : (w : World) (s : WsStatus) → Quiet w → Quiet (set_status s w)
unfolding set_status
set_status-Quiet w s q = record {
  dead = λ j. ground (arith, q.dead j);
  no_timer = λ t. ground (arith, q.no_timer t);
  delay = ground (arith, q.delay);
}

pub teardown-Idle : (w : World) → Tidy w → w.subscribed_ids ≡ [] → Idle (teardown w)
unfolding teardown
teardown-Idle w h e = record {
  quiet = set_status-Quiet _ disconnected (
      settle (record w { destroyed = true; retry_delay = first_delay })
        (record { others = h.others; timers_owned = h.timers_owned; delay = omega arith }));
  no_ids = unfold close_ws clear_retry set_status in ground arith;
  shown = unfold close_ws clear_retry set_status in ground arith;
}
