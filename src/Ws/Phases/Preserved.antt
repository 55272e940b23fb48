-- ===== src/Ws/Phases/Preserved.antt =====
-- Every step of the manager leads from a phase to a phase.
use ops_sys.Base.{
  ℕ, Bool, true, false, ◌≡◌, ◌≢◌, refl, sym, List, [], ◌∷◌, arith, inl, inr, Bool-cases, subst,
}
use ops_sys.Base.Text.{Text}
use ops_sys.Base.Sets.{has, add, delete}
use ops_sys.Ws.Browser.{ReadyState, closing, closed, opened}
use ops_sys.Ws.{
  World, WsStatus, disconnected, is_empty, set_status, subscribe, unsubscribe, on_open, on_close,
  send,
}
use ops_sys.Ws.Steps.{becomes, closes_socket}
use ops_sys.Ws.Phases.{is_dead, Tidy, Quiet, Wanted, Waiting, Live, Phase, idle, waiting, live}
use ops_sys.Ws.Phases.Settle.{
  Phase-Tidy, schedule_reconnect-Waiting, reconnect-Live, teardown-Idle, set_status-Quiet,
}

pub add_nonempty : (v : Text) (s : List Text) → is_empty (add v s) ≡ false
unfolding add
add_nonempty v [] = refl
add_nonempty v (x ∷ s) = ground arith

-- The ids are no part of tidiness.
Tidy-ids :
    (w : World) (ids : List Text) (d : Bool)
    → Tidy w
    → Tidy (record w { subscribed_ids = ids; destroyed = d })
Tidy-ids w ids d h = record { others = h.others; timers_owned = h.timers_owned; delay = h.delay }

pub as-Live : {w : World} → (i : ℕ) × Live i w → Phase w
as-Live (i, p) = live i p

pub in_use : (w : World) → Phase w → is_empty w.subscribed_ids ≡ false → w.destroyed ≡ false
in_use w (idle p) h = ground (arith, p.no_ids)
in_use w (waiting t p) h = p.wanted.in_use
in_use w (live i p) h = p.wanted.in_use

pub subscribe-Phase : (v : Text) (w : World) → Phase w → Phase (subscribe v w)
unfolding subscribe
subscribe-Phase v w p = elim (Bool-cases (has v w.subscribed_ids)) [
  | inl old ↦ rw old p
  | inr new ↦ rw new (
      as-Live (
        reconnect-Live (record w { subscribed_ids = add v w.subscribed_ids; destroyed = false })
          (Tidy-ids w (add v w.subscribed_ids) false (Phase-Tidy w p))
          (record { nonempty = add_nonempty v w.subscribed_ids; in_use = refl })))
]

pub empty-nil : (s : List Text) → is_empty s ≡ true → s ≡ []
empty-nil [] h = refl
empty-nil (x ∷ s) h = cc

pub has_nonempty : (v : Text) (s : List Text) → has v s ≡ true → is_empty s ≡ false
unfolding has
has_nonempty v [] h = cc
has_nonempty v (x ∷ s) h = refl

pub unsubscribe-Phase : (v : Text) (w : World) → Phase w → Phase (unsubscribe v w)
unfolding unsubscribe
unsubscribe-Phase v w p = elim (Bool-cases (has v w.subscribed_ids)) [
  | inr absent ↦ rw absent p
  | inl old ↦
      let used : w.destroyed ≡ false = in_use w p (has_nonempty v w.subscribed_ids old) in
      let tidy : Tidy w' = Tidy-ids w ids w.destroyed (Phase-Tidy w p) in
      elim (Bool-cases (is_empty ids)) [
        | inl last ↦ rw (old, last) (idle (teardown-Idle w' tidy (empty-nil ids last)))
        | inr more ↦
            rw (old, more)
              (as-Live (reconnect-Live w' tidy (record { nonempty = more; in_use = used })))
      ]
]
  where
    ids : List Text
    ids = delete v w.subscribed_ids

    w' : World
    w' = record w { subscribed_ids = ids }

pub opens-Live :
    (i : ℕ) (w : World)
    → (w.sockets i).ready ≡ ReadyState.connecting
    → Live i w
    → Live i (on_open (becomes opened i w))
unfolding on_open send set_status
opens-Live i w e p = record {
  wanted = ground (arith, p.wanted);
  owned = ground (arith, p.owned);
  calls_back = ground (arith, p.calls_back, p.owned);
  alive = ground (arith, p.owned);
  others = λ j. ground (arith, p.owned, p.others j);
  no_timer = λ t. ground (arith, p.owned, p.no_timer t);
  shown = ground (arith, p.owned);
  told = ground (arith, p.owned);
  delay = ground (arith, p.owned);
}

pub begins-Live :
    (i : ℕ) (w : World) → (w.sockets i).ready ≡ opened → Live i w → Live i (becomes closing i w)
begins-Live i w e p = record {
  wanted = ground (arith, p.wanted);
  owned = ground (arith, p.owned);
  calls_back = ground (arith, p.calls_back, p.owned);
  alive = ground (arith, p.owned);
  others = λ j. ground (arith, p.owned, p.others j);
  no_timer = λ t. ground (arith, p.owned, p.no_timer t);
  shown = ground (arith, p.owned, p.shown);
  told = ground (arith, p.owned);
  delay = ground (arith, p.delay);
}

set_status-Wanted :
    (w : World) (s : WsStatus)
    → Wanted w.subscribed_ids w.destroyed
    → Wanted (set_status s w).subscribed_ids (set_status s w).destroyed
unfolding set_status
set_status-Wanted w s h = ground arith

becomes_closed-Quiet : (i : ℕ) (w : World) → Live i w → Quiet (becomes closed i w)
becomes_closed-Quiet i w p = record {
  dead = λ j. ground (arith, p.others j);
  no_timer = p.no_timer;
  delay = p.delay;
}

-- The close of the connection leads to a pending retry.
pub closes-Waiting : (i : ℕ) (w : World) → Live i w → (t : ℕ) × Waiting t (closes_socket i w)
closes-Waiting i w p =
    subst (λ (u : World). (t : ℕ) × Waiting t u) (sym called)
      (unfold on_close in
        schedule_reconnect-Waiting (set_status disconnected (becomes closed i w))
          (set_status-Quiet (becomes closed i w) disconnected (becomes_closed-Quiet i w p))
          (set_status-Wanted (becomes closed i w) disconnected p.wanted))
  where
    called : closes_socket i w ≡ on_close (becomes closed i w)
    called = ground (arith, p.calls_back)

-- The close of a socket that was given up is not heard.
pub unheard :
    (j : ℕ) (w : World)
    → is_dead (w.sockets j) ≡ true
    → (w.sockets j).ready ≢ closed
    → closes_socket j w ≡ becomes closed j w
unheard j w dead h = ground arith

pub dead-Phase :
    (j : ℕ) (w : World) → is_dead (w.sockets j) ≡ true → Phase w → Phase (becomes closed j w)
dead-Phase j w dead (idle p) = idle (record {
  quiet = record {
    dead = λ i. ground (arith, p.quiet.dead i);
    no_timer = p.quiet.no_timer;
    delay = p.quiet.delay;
  };
  no_ids = p.no_ids;
  shown = p.shown;
})
dead-Phase j w dead (waiting t p) = waiting t (record {
  wanted = p.wanted;
  dead = λ i. ground (arith, p.dead i);
  owned = p.owned;
  pending = p.pending;
  no_other = p.no_other;
  shown = p.shown;
  delay = p.delay;
})
dead-Phase j w dead (live i p) = live i (record {
  wanted = p.wanted;
  owned = p.owned;
  calls_back = ground (arith, p.calls_back);
  alive = ground (arith, p.calls_back, p.alive);
  others = λ k. ground (arith, p.others k);
  no_timer = p.no_timer;
  shown = ground (arith, p.calls_back, p.alive, p.shown);
  told = λ h. p.told (ground (arith, p.calls_back));
  delay = p.delay;
})
