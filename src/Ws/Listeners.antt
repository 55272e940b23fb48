-- ===== src/Ws/Listeners.antt =====
-- What the status light of the page shows, `WsIndicator` of components/TopBar/TopBar.tsx: a
-- component keeps the status that it read when it was made, and then the last one that it heard.
use ops_sys.Base.{
  ℕ, ◌*◌, min, Bool, true, false, ◌≡◌, refl, ◌||◌, List, [], ◌∷◌, ◌++◌, map, arith, ◌==◌,
  if◌then◌else◌, Bool-cases, inl, inr, none, some, ◌≢◌,
}
use ops_sys.Base.Text.{Text}
use ops_sys.Base.Sets.{add, delete}
use ops_sys.Frames.{LiveFrame, alert, assistance_request, other}
use ops_sys.Ws.Browser.{opened, closed, update}
use ops_sys.Ws.{
  Message, binary, text, first_delay, max_delay, World, WsStatus, connecting, connected,
  disconnected, set_status, clear_retry, close_ws, close_live_ws, new_socket, open_ws, teardown,
  reconnect, subscribe, unsubscribe, set_retry, schedule_reconnect, on_retry, send, on_open,
  on_close, on_message, on_status_change, off_status_change, add_listener,
}
use ops_sys.Ws.Steps.{
  Step, subscribes, unsubscribes, listens, leaves, opens, receives, begins_to_close, closes, fires,
  stores_change, becomes, closes_socket,
}

abbrev pub hears : ℕ → List ℕ → Bool
hears fn [] = false
hears fn (g ∷ gs) = g == fn || hears fn gs

-- The state of the component: `s` at first, then what its listener hears.
abbrev pub shown_by : ℕ → WsStatus → List (ℕ × WsStatus) → WsStatus
shown_by fn s [] = s
shown_by fn s ((g, t) ∷ log) = shown_by fn (if g == fn then t else s) log

shown_by-append :
    (fn : ℕ) (s : WsStatus) (log more : List (ℕ × WsStatus))
    → shown_by fn s (log ++ more) ≡ shown_by fn (shown_by fn s log) more
shown_by-append fn s [] more = refl
shown_by-append fn s ((g, t) ∷ log) more = shown_by-append fn (if g == fn then t else s) log more

shown_by-map :
    (fn : ℕ) (s t : WsStatus) (gs : List ℕ)
    → shown_by fn s (map (λ g. (g, t)) gs) ≡ (if hears fn gs then t else s)
shown_by-map fn s t [] = refl
shown_by-map fn s t (g ∷ gs) = ground (arith, shown_by-map fn t t gs, shown_by-map fn s t gs)

-- The component still listens, and shows the status of the manager.
abbrev pub Follows : ℕ → WsStatus → World → Type 0
Follows fn s w = (hears fn w.listeners ≡ true) × (shown_by fn s w.notified ≡ w.status)

module _ (fn : ℕ) (s : WsStatus) where
  set_status-Follows : (t : WsStatus) (w : World) → Follows fn s w → Follows fn s (set_status t w)
  unfolding set_status
  set_status-Follows t w f = ground (
    arith,
    shown_by-append fn s w.notified (map (λ g. (g, t)) w.listeners),
    shown_by-map fn (shown_by fn s w.notified) t w.listeners,
  )

  open_ws-Follows : (w : World) → Follows fn s w → Follows fn s (open_ws w)
  unfolding open_ws new_socket
  open_ws-Follows w f = ground (arith, set_status-Follows connecting w f)

  schedule-Follows : (w : World) → Follows fn s w → Follows fn s (schedule_reconnect w)
  unfolding schedule_reconnect set_retry
  schedule-Follows w f = ground (arith, set_status-Follows connecting w f)

  close_live-Follows : (w : World) → Follows fn s w → Follows fn s (close_live_ws (clear_retry w))
  unfolding close_live_ws clear_retry
  close_live-Follows w f = ground arith

  close-Follows : (w : World) → Follows fn s w → Follows fn s (close_ws (clear_retry w))
  unfolding close_ws clear_retry
  close-Follows w f = ground arith

  reconnect-Follows : (w : World) → Follows fn s w → Follows fn s (reconnect w)
  unfolding reconnect
  reconnect-Follows w f = open_ws-Follows (close_live_ws (clear_retry w)) (close_live-Follows w f)

  subscribe-Follows : (v : Text) (w : World) → Follows fn s w → Follows fn s (subscribe v w)
  unfolding subscribe
  subscribe-Follows v w f = ground (
    arith,
    reconnect-Follows (record w { subscribed_ids = add v w.subscribed_ids; destroyed = false }) f,
  )

  teardown-Follows : (w : World) → Follows fn s w → Follows fn s (teardown w)
  unfolding teardown
  teardown-Follows w f =
      set_status-Follows disconnected _
        (close-Follows (record w { destroyed = true; retry_delay = first_delay }) f)

  unsubscribe-Follows : (v : Text) (w : World) → Follows fn s w → Follows fn s (unsubscribe v w)
  unfolding unsubscribe
  unsubscribe-Follows v w f =
      let w' : World = record w { subscribed_ids = delete v w.subscribed_ids } in
      ground (arith, reconnect-Follows w' f, teardown-Follows w' f)

  send-Follows : (w : World) → Follows fn s w → Follows fn s (send w)
  unfolding send
  send-Follows w f = ground arith

  on_open-Follows : (w : World) → Follows fn s w → Follows fn s (on_open w)
  unfolding on_open
  on_open-Follows w f =
      send-Follows _ (set_status-Follows connected (record w { retry_delay = first_delay }) f)

  closes-Follows : (i : ℕ) (w : World) → Follows fn s w → Follows fn s (closes_socket i w)
  unfolding on_close
  closes-Follows i w f = elim (Bool-cases (w.sockets i).has_onclose) [
    | inl heard ↦ ground (
      arith,
      schedule-Follows (set_status disconnected (becomes closed i w))
          (set_status-Follows disconnected (becomes closed i w) f),
    )
    | inr silent ↦ ground arith
  ]

  on_message-Follows : (m : Message) (w : World) → Follows fn s w → Follows fn s (on_message m w)
  unfolding on_message
  on_message-Follows binary w f = f
  on_message-Follows (text none) w f = f
  on_message-Follows (text (some (LiveFrame.telemetry _))) w f = f
  on_message-Follows (text (some (alert _))) w f = f
  on_message-Follows (text (some (assistance_request _))) w f = f
  on_message-Follows (text (some other)) w f = f

  Step-Follows :
      {w u : World} → Step w u → hears fn u.listeners ≡ true → Follows fn s w → Follows fn s u
  Step-Follows {w} (subscribes v) h f = subscribe-Follows v w f
  Step-Follows {w} (unsubscribes v) h f = unsubscribe-Follows v w f
  Step-Follows {w} (listens g) h f = unfold on_status_change in (h, f.1)
  Step-Follows {w} (leaves g) h f = unfold off_status_change in (h, f.1)
  Step-Follows {w} (opens i e) h f = on_open-Follows (becomes opened i w) f
  Step-Follows {w} (receives i m e) h f = on_message-Follows m w f
  Step-Follows {w} (begins_to_close i e) h f = f
  Step-Follows {w} (closes i e) h f = closes-Follows i w f
  Step-Follows {w} (fires t d e) h f =
      unfold on_retry in
      open_ws-Follows
        (record w {
          timers = update w.timers t none;
          retry_delay = min (w.retry_delay * 2) max_delay;
        })
        f
  Step-Follows {w} (stores_change token telemetry alerts) h f = f

-- Steps during which `fn` goes on listening.
pub data Watched (fn : ℕ) (w : World) : World → Type 0 where
  start : Watched fn w w
  then_on :
      {u u' : World} → Watched fn w u → Step u u' → hears fn u'.listeners ≡ true → Watched fn w u'

Watched-Follows :
    (fn : ℕ) (s : WsStatus) {w u : World} → Watched fn w u → Follows fn s w → Follows fn s u
Watched-Follows fn s start f = f
Watched-Follows fn s (then_on p step h) f = Step-Follows fn s step h (Watched-Follows fn s p f)

hears-add : (fn : ℕ) (gs : List ℕ) → hears fn (add_listener fn gs) ≡ true
unfolding add_listener
hears-add fn [] = ground arith
hears-add fn (g ∷ gs) = ground (arith, hears-add fn gs)

-- A listener that was told nothing yet.
abbrev pub IsUnheard : ℕ → List (ℕ × WsStatus) → Type 0
IsUnheard fn [] = Unit
IsUnheard fn ((g, t) ∷ log) = (g ≢ fn) × IsUnheard fn log

shown_by-unheard :
    (fn : ℕ) (s : WsStatus) (log : List (ℕ × WsStatus)) → IsUnheard fn log → shown_by fn s log ≡ s
shown_by-unheard fn s [] h = refl
shown_by-unheard fn s ((g, t) ∷ log) h = ground (arith, shown_by-unheard fn s log h.1)

-- A component that reads the status and then begins to listen, with a listener that was told
-- nothing yet, shows the manager's status after any steps during which it goes on listening.
pub shown_by-status :
    (fn : ℕ) (w : World) {u : World}
    → IsUnheard fn w.notified
    → Watched fn (on_status_change fn w) u
    → shown_by fn w.status u.notified ≡ u.status
shown_by-status fn w fresh p =
    (Watched-Follows fn w.status p (
      unfold on_status_change in
      (hears-add fn w.listeners, shown_by-unheard fn w.status w.notified fresh))).1
