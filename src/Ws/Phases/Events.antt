-- ===== src/Ws/Phases/Events.antt =====
-- Every event of the browser and every call leads from a phase to a phase.
use ops_sys.Base.{
  ℕ, true, ◌≡◌, ◌≢◌, refl, sym, Bool-cases, ◌*◌, min, none, some, arith, inl, inr, subst,
  ℕ_discrete,
}
use ops_sys.Base.Text.{Text}
use ops_sys.Frames.{LiveFrame, alert, assistance_request, other}
use ops_sys.Ws.Browser.{ReadyState, closing, closed, opened, update}
use ops_sys.Ws.{
  World, max_delay, on_open, on_retry, Message, binary, text, on_message, on_status_change,
  off_status_change,
}
use ops_sys.Ws.Steps.{
  initial, becomes, closes_socket, fires_timer, Step, subscribes, unsubscribes, listens, leaves,
  opens, receives, begins_to_close, closes, fires, stores_change, Reach, here, next,
}
use ops_sys.Ws.Phases.{is_dead, Waiting, Live, Phase, idle, waiting, live}
use ops_sys.Ws.Phases.Settle.{open_ws-Live, Phase-Live}
use ops_sys.Ws.Phases.Preserved.{
  subscribe-Phase, unsubscribe-Phase, opens-Live, begins-Live, closes-Waiting, unheard, dead-Phase,
  as-Live,
}

initial-Phase : (gateway_url : Text) → Phase (initial gateway_url)
initial-Phase gateway_url = idle (record {
  quiet = record { dead = λ j. refl; no_timer = λ t. refl; delay = omega arith };
  no_ids = refl;
  shown = refl;
})

-- The fields on which no phase rests.
abbrev other_fields : World → World → World
other_fields u w = record w {
  listeners = u.listeners;
  notified = u.notified;
  token = u.token;
  telemetry = u.telemetry;
  alerts = u.alerts;
}

other_fields-Phase : (u w : World) → Phase w → Phase (other_fields u w)
other_fields-Phase u w (idle p) = idle (record {
  quiet = record { dead = p.quiet.dead; no_timer = p.quiet.no_timer; delay = p.quiet.delay };
  no_ids = p.no_ids;
  shown = p.shown;
})
other_fields-Phase u w (waiting t p) = waiting t (record {
  wanted = p.wanted;
  dead = p.dead;
  owned = p.owned;
  pending = p.pending;
  no_other = p.no_other;
  shown = p.shown;
  delay = p.delay;
})
other_fields-Phase u w (live i p) = live i (record {
  wanted = p.wanted;
  owned = p.owned;
  calls_back = p.calls_back;
  alive = p.alive;
  others = p.others;
  no_timer = p.no_timer;
  shown = p.shown;
  told = p.told;
  delay = p.delay;
})

on_message_fields : (m : Message) (w : World) → on_message m w ≡ other_fields (on_message m w) w
unfolding on_message
on_message_fields binary w = refl
on_message_fields (text none) w = refl
on_message_fields (text (some (LiveFrame.telemetry f))) w = refl
on_message_fields (text (some (alert a))) w = refl
on_message_fields (text (some (assistance_request r))) w = refl
on_message_fields (text (some other)) w = refl

on_message-Phase : (m : Message) (w : World) → Phase w → Phase (on_message m w)
on_message-Phase m w p =
    subst Phase (sym (on_message_fields m w)) (other_fields-Phase (on_message m w) w p)

opens-Phase :
    (i : ℕ) (w : World)
    → (w.sockets i).ready ≡ ReadyState.connecting
    → Phase w
    → Phase (on_open (becomes opened i w))
opens-Phase i w e p = live i (opens-Live i w e (Phase-Live i w p (ground arith)))

begins-Phase :
    (i : ℕ) (w : World) → (w.sockets i).ready ≡ opened → Phase w → Phase (becomes closing i w)
begins-Phase i w e p = live i (begins-Live i w e (Phase-Live i w p (ground arith)))

given_up :
    (i : ℕ) (w : World)
    → (w.sockets i).ready ≢ closed
    → is_dead (w.sockets i) ≡ true
    → Phase w
    → Phase (closes_socket i w)
given_up i w h dead p = subst Phase (sym (unheard i w dead h)) (dead-Phase i w dead p)

closes-Phase :
    (i : ℕ) (w : World) → (w.sockets i).ready ≢ closed → Phase w → Phase (closes_socket i w)
closes-Phase i w h p = elim (Bool-cases (is_dead (w.sockets i))) [
  | inl dead ↦ given_up i w h dead p
  | inr alive ↦ let (t, q) = closes-Waiting i w (Phase-Live i w p alive) in waiting t q
]

pub fires-Live : (t : ℕ) (w : World) → Waiting t w → (i : ℕ) × Live i (fires_timer t w)
unfolding on_retry
fires-Live t w p =
    open_ws-Live
      (record w {
        timers = update w.timers t none;
        retry_delay = min (w.retry_delay * 2) max_delay;
      })
      (record {
        dead = p.dead;
        no_timer = λ t'. ground (arith, p.no_other t');
        delay = omega (arith, p.delay);
      })
      p.wanted

-- A timer that is pending is the one that the manager waits for.
pub fires-Waiting : (t d : ℕ) (w : World) → w.timers t ≡ some d → Phase w → Waiting t w
fires-Waiting t d w e (idle p) = absurd (ground (arith, p.quiet.no_timer t))
fires-Waiting t d w e (waiting t' p) = elim (ℕ_discrete t' t) [
  | yes same ↦ subst (λ (k : ℕ). Waiting k w) same p
  | no apart ↦ absurd (ground (arith, p.no_other t (λ h. apart (sym h))))
]
fires-Waiting t d w e (live j p) = absurd (ground (arith, p.no_timer t))

fires-Phase : (t d : ℕ) (w : World) → w.timers t ≡ some d → Phase w → Phase (fires_timer t w)
fires-Phase t d w e p = as-Live (fires-Live t w (fires-Waiting t d w e p))

pub Step-Phase : {w u : World} → Step w u → Phase w → Phase u
Step-Phase {w} (subscribes v) p = subscribe-Phase v w p
Step-Phase {w} (unsubscribes v) p = unsubscribe-Phase v w p
Step-Phase {w} (listens fn) p =
    unfold on_status_change in other_fields-Phase (on_status_change fn w) w p
Step-Phase {w} (leaves fn) p =
    unfold off_status_change in other_fields-Phase (off_status_change fn w) w p
Step-Phase {w} (opens i e) p = opens-Phase i w e p
Step-Phase {w} (receives i m e) p = on_message-Phase m w p
Step-Phase {w} (begins_to_close i e) p = begins-Phase i w e p
Step-Phase {w} (closes i e) p = closes-Phase i w e p
Step-Phase {w} (fires t d e) p = fires-Phase t d w e p
Step-Phase {w} (stores_change token telemetry alerts) p =
    other_fields-Phase (record w { token = token; telemetry = telemetry; alerts = alerts }) w p

-- Whatever happens, the manager is in one of its phases.
pub Reach-Phase : (gateway_url : Text) {w : World} → Reach (initial gateway_url) w → Phase w
Reach-Phase gateway_url here = initial-Phase gateway_url
Reach-Phase gateway_url (next r s) = Step-Phase s (Reach-Phase gateway_url r)
