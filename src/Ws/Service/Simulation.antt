-- ===== src/Ws/Service/Simulation.antt =====
-- The manager implements the service: each of its steps is a move of the service, or none.
use ops_sys.Base.{
  ℕ, true, false, ◌≡◌, ◌≢◌, refl, sym, ap, ◌∙◌, arith, inl, inr, Bool-cases, List, [], ◌∷◌, none,
  some, if◌then◌else◌, subst,
}
use ops_sys.Base.Text.{Text, text_eq_refl}
use ops_sys.Base.Sets.{has, add, delete, has-delete}
use ops_sys.Frames.{LiveFrame, alert, assistance_request, other}
use ops_sys.Ws.Browser.{ReadyState, closing, closed, opened}
use ops_sys.Ws.{
  World, WsStatus, disconnected, connecting, connected, is_empty, subscribe, unsubscribe, on_open,
  reconnect, teardown, Message, binary, text, on_message, on_status_change, off_status_change,
}
use ops_sys.Ws.Steps.{
  initial, becomes, closes_socket, fires_timer, Step, subscribes, unsubscribes, listens, leaves,
  opens, receives, begins_to_close, closes, fires, stores_change, Reach, here, next,
}
use ops_sys.Ws.Ids.{ids-reconnect, ids-teardown}
use ops_sys.Ws.Status.{
  status-reconnect, status-teardown, status-on_open, ids-on_open, ids-fires, status-fires,
  ids-closes,
}
use ops_sys.Ws.Phases.{is_dead, Waiting, Live, Phase, shows}
use ops_sys.Ws.Phases.Settle.{Phase-Live}
use ops_sys.Ws.Phases.Preserved.{
  add_nonempty, in_use, empty-nil, has_nonempty, unheard, closes-Waiting,
}
use ops_sys.Ws.Phases.Events.{Reach-Phase, fires-Waiting}
use ops_sys.Ws.Service.{
  off, trying, on, nothing_wanted, asks, gives_up, comes_up, goes_down, unseen, Move, has_it,
  takes_it, lacks_it, drops_it, stays, ends, connects, loses, Moves, start, followed_by, label,
  labels, connection_of, view, view-ext, wants-add, wants-delete,
}

same-view :
    (w u : World) → u.subscribed_ids ≡ w.subscribed_ids → u.status ≡ w.status → view u ≡ view w
same-view w u e f = view-ext u w.subscribed_ids w.status e f

-- A view whose ids are those of `w`.
moved-view :
    (w u : World) (s : WsStatus)
    → u.subscribed_ids ≡ w.subscribed_ids
    → u.status ≡ s
    → view u ≡ record (view w) { connection = connection_of s }
moved-view w u s e f = view-ext u w.subscribed_ids s e f

subscribe-Move : (v : Text) (w : World) → Move (view w) (view (subscribe v w)) (asks v)
unfolding subscribe
subscribe-Move v w = elim (Bool-cases (has v w.subscribed_ids)) [
  | inl old ↦ rw old (has_it old refl)
  | inr new ↦ rw new (
      takes_it new (
        view-ext (reconnect w') (add v w.subscribed_ids) connecting (ids-reconnect w') (
          status-reconnect w'
            (record { nonempty = add_nonempty v w.subscribed_ids; in_use = refl }))
        ∙ ap (λ f. record { wants = f; connection = trying }) (wants-add v w.subscribed_ids)))
]
  where
    w' : World
    w' = record w { subscribed_ids = add v w.subscribed_ids; destroyed = false }

-- A list that is not empty has a member.
a_member : (ids : List Text) → is_empty ids ≡ false → (v : Text) × (has v ids ≡ true)
unfolding has
a_member [] h = cc
a_member (v ∷ ids) h = (v, rw (text_eq_refl v) refl)

unsubscribe-Move :
    (v : Text) (w : World) → Phase w → Move (view w) (view (unsubscribe v w)) (gives_up v)
unfolding unsubscribe
unsubscribe-Move v w p = elim (Bool-cases (has v w.subscribed_ids)) [
  | inr absent ↦ rw absent (lacks_it absent refl)
  | inl old ↦ elim (Bool-cases (is_empty ids)) [
    | inl last ↦
        rw (old, last)
          (ends old (λ u. sym (has-delete v u w.subscribed_ids) ∙ none_left last u)
            (view-ext (teardown w') ids disconnected (ids-teardown w') (status-teardown w')
              ∙ ap (λ f. record { wants = f; connection = off }) (wants-delete v w.subscribed_ids)))
    | inr more ↦
        let (u, member) = a_member ids more in
        rw (old, more)
          (drops_it u old (sym (has-delete v u w.subscribed_ids) ∙ member) (
            view-ext (reconnect w') ids connecting (ids-reconnect w') (
              status-reconnect w' (record {
                nonempty = more;
                in_use = in_use w p (has_nonempty v w.subscribed_ids old);
              }))
            ∙ ap (λ f. record { wants = f; connection = trying })
                (wants-delete v w.subscribed_ids)))
  ]
]
  where
    ids : List Text
    ids = delete v w.subscribed_ids

    w' : World
    w' = record w { subscribed_ids = ids }

    none_left : is_empty ids ≡ true → (u : Text) → has u ids ≡ false
    none_left last u = rw (empty-nil ids last) (unfold has in refl)

opens-Move :
    (i : ℕ) (w : World)
    → (w.sockets i).ready ≡ ReadyState.connecting
    → Phase w
    → Move (view w) (view (on_open (becomes opened i w))) comes_up
opens-Move i w e p =
    let q : Live i w = Phase-Live i w p (ground arith) in
    connects (ap connection_of (q.shown ∙ ap shows e)) (
      moved-view w (on_open (becomes opened i w)) connected (ids-on_open (becomes opened i w))
        (status-on_open (becomes opened i w)))

off-not_trying : off ≢ trying
off-not_trying e = cc

off-not_on : off ≢ on
off-not_on e = cc

-- The close of a connection: it was on, or it was still being tried.
lost :
    (i : ℕ) (w u : World) (r : ReadyState)
    → r ≢ closed
    → w.status ≡ shows r
    → u.subscribed_ids ≡ w.subscribed_ids
    → u.status ≡ connecting
    → Move (view w) (view u) goes_down
lost i w u ReadyState.connecting h s e f =
    loses (λ n. off-not_trying (sym n ∙ ap connection_of s)) (moved-view w u connecting e f)
lost i w u opened h s e f =
    loses (λ n. off-not_on (sym n ∙ ap connection_of s)) (moved-view w u connecting e f)
lost i w u closing h s e f =
    loses (λ n. off-not_on (sym n ∙ ap connection_of s)) (moved-view w u connecting e f)
lost i w u closed h s e f = absurd (h refl)

closes-Move :
    (i : ℕ) (w : World)
    → (w.sockets i).ready ≢ closed
    → Phase w
    → Move (view w) (view (closes_socket i w)) (if is_dead (w.sockets i) then unseen else goes_down)
closes-Move i w h p = elim (Bool-cases (is_dead (w.sockets i))) [
  | inl dead ↦ rw (unheard i w dead h, dead) (stays refl)
  | inr alive ↦
      let q : Live i w = Phase-Live i w p alive in
      let down =
        lost i w (closes_socket i w) (w.sockets i).ready h q.shown (ids-closes i w)
          (closes-Waiting i w q).1.shown in
      subst (λ b. Move (view w) (view (closes_socket i w)) (if b then unseen else goes_down))
        (sym alive) down
]

fires-Move :
    (t d : ℕ) (w : World)
    → w.timers t ≡ some d
    → Phase w
    → Move (view w) (view (fires_timer t w)) unseen
fires-Move t d w e p =
    let q : Waiting t w = fires-Waiting t d w e p in
    stays (same-view w (fires_timer t w) (ids-fires t w) (status-fires t w q.wanted ∙ sym q.shown))

on_message-view : (m : Message) (w : World) → view (on_message m w) ≡ view w
unfolding on_message
on_message-view binary w = refl
on_message-view (text none) w = refl
on_message-view (text (some (LiveFrame.telemetry f))) w = refl
on_message-view (text (some (alert a))) w = refl
on_message-view (text (some (assistance_request r))) w = refl
on_message-view (text (some other)) w = refl

Step-Move : {w u : World} (s : Step w u) → Phase w → Move (view w) (view u) (label s)
Step-Move {w} (subscribes v) p = subscribe-Move v w
Step-Move {w} (unsubscribes v) p = unsubscribe-Move v w p
Step-Move {w} (listens fn) p = stays (unfold on_status_change in refl)
Step-Move {w} (leaves fn) p = stays (unfold off_status_change in refl)
Step-Move {w} (opens i e) p = opens-Move i w e p
Step-Move {w} (receives i m e) p = stays (on_message-view m w)
Step-Move {w} (begins_to_close i e) p = stays refl
Step-Move {w} (closes i e) p = closes-Move i w e p
Step-Move {w} (fires t d e) p = fires-Move t d w e p
Step-Move {w} (stores_change token telemetry alerts) p = stays refl

-- The manager implements the service, step by step: for every history of the manager, the service has
-- a run from nothing wanted in which each call asks for its vehicle or gives it up, each socket that
-- opens is the attempt that comes up, each heard close is what goes down, and nothing else is seen;
-- and what is seen of the manager is where that run ends.
pub Reach-Moves :
    (gateway_url : Text) {w : World} (r : Reach (initial gateway_url) w)
    → Moves nothing_wanted (labels r) (view w)
Reach-Moves gateway_url here = unfold has in start
Reach-Moves gateway_url (next r s) =
    followed_by (Reach-Moves gateway_url r) (Step-Move s (Reach-Phase gateway_url r))
