-- ===== src/Ws/Recovery.antt =====
-- From any world, a few events of the browser are enough to be connected again.
use ops_sys.Base.{ℕ, suc, ◌≡◌, ◌≢◌, refl, sym, ap, ◌∙◌, arith, some, List, []}
use ops_sys.Base.Text.{Text}
use ops_sys.Ws.Browser.{ReadyState, closing, closed, opened}
use ops_sys.Ws.{World, connected, on_open, request, set_status, send}
use ops_sys.Ws.Steps.{initial, becomes, closes_socket, fires_timer, Reach}
use ops_sys.Ws.Status.{ids-on_open, ids-fires, ids-closes, status-fires, connecting_of_shows}
use ops_sys.Ws.Phases.{Waiting, Live, Phase, idle, waiting, live, last_sent, shows}
use ops_sys.Ws.Phases.Preserved.{opens-Live, closes-Waiting}
use ops_sys.Ws.Phases.Events.{Reach-Phase, fires-Live}

-- At most `n` steps, in each of which the gateway takes the connection, a connection ends, or the
-- timer fires. No page does anything.
pub data Within : World → ℕ → World → Type 0 where
  done : {w : World} {n : ℕ} → Within w n w
  opens_then :
      {w u : World} {n : ℕ} (i : ℕ)
      → (w.sockets i).ready ≡ ReadyState.connecting
      → Within (on_open (becomes opened i w)) n u
      → Within w (suc n) u
  closes_then :
      {w u : World} {n : ℕ} (i : ℕ)
      → (w.sockets i).ready ≢ closed
      → Within (closes_socket i w) n u
      → Within w (suc n) u
  fires_then :
      {w u : World} {n : ℕ} (t d : ℕ)
      → w.timers t ≡ some d
      → Within (fires_timer t w) n u
      → Within w (suc n) u

-- The manager is connected, for the ids given, and has told the gateway so.
pub record IsConnected (ids : List Text) (u : World) : Type 0 where
  pub shown : u.status ≡ connected
  pub same : u.subscribed_ids ≡ ids
  pub told :
      (i : ℕ) × (u.ws ≡ some i)
      × ((u.sockets i).ready ≡ opened)
      × (last_sent u ≡ some (i, request u))

-- A world from which the manager can be connected within `n` steps.
abbrev pub Recovers : ℕ → World → Type 0
Recovers n w = (u : World) × Within w n u × IsConnected w.subscribed_ids u

open-IsConnected :
    (i : ℕ) (w : World) → (w.sockets i).ready ≡ opened → Live i w → IsConnected w.subscribed_ids w
open-IsConnected i w e p = record {
  shown = p.shown ∙ ap shows e;
  same = refl;
  told = (i, p.owned, e, p.told e);
}

opened_socket :
    (i : ℕ) (w : World) → Live i w → ((on_open (becomes opened i w)).sockets i).ready ≡ opened
unfolding on_open send set_status
opened_socket i w p = ground (arith, p.owned)

tries-Recovers :
    (i : ℕ) (w : World) → (w.sockets i).ready ≡ ReadyState.connecting → Live i w → Recovers 1 w
tries-Recovers i w e p =
    let u : World = on_open (becomes opened i w) in
    let c : IsConnected u.subscribed_ids u =
      open-IsConnected i u (opened_socket i w p) (opens-Live i w e p) in
    (
      u,
      opens_then i e done,
      record { shown = c.shown; same = ids-on_open (becomes opened i w); told = c.told },
    )

Waiting-Recovers : (t : ℕ) (w : World) → Waiting t w → Recovers 2 w
Waiting-Recovers t w p =
    let (i, q) = fires-Live t w p in
    let (u, steps, c) =
      tries-Recovers i (fires_timer t w)
        (connecting_of_shows ((fires_timer t w).sockets i).ready
          (sym q.shown ∙ status-fires t w p.wanted))
        q in
    (
      u,
      fires_then t w.retry_delay p.pending steps,
      record { shown = c.shown; same = c.same ∙ ids-fires t w; told = c.told },
    )

closing-Recovers : (i : ℕ) (w : World) → Live i w → Recovers 3 w
closing-Recovers i w p =
    let (t, q) = closes-Waiting i w p in
    let (u, steps, c) = Waiting-Recovers t (closes_socket i w) q in
    (
      u,
      closes_then i p.alive steps,
      record { shown = c.shown; same = c.same ∙ ids-closes i w; told = c.told },
    )

more : {w u : World} {n : ℕ} → Within w n u → Within w (suc n) u
more done = done
more (opens_then i e s) = opens_then i e (more s)
more (closes_then i e s) = closes_then i e (more s)
more (fires_then t d e s) = fires_then t d e (more s)

ready-Recovers :
    (i : ℕ) (w : World) (r : ReadyState) → (w.sockets i).ready ≡ r → Live i w → Recovers 3 w
ready-Recovers i w ReadyState.connecting e p =
    let (u, steps, c) = tries-Recovers i w e p in (u, more (more steps), c)
ready-Recovers i w opened e p = (w, done, open-IsConnected i w e p)
ready-Recovers i w closing e p = closing-Recovers i w p
ready-Recovers i w closed e p = absurd (p.alive e)

Phase-Recovers : (w : World) → Phase w → w.subscribed_ids ≢ [] → Recovers 3 w
Phase-Recovers w (idle p) h = absurd (h p.no_ids)
Phase-Recovers w (waiting t p) h = let (u, steps, c) = Waiting-Recovers t w p in (u, more steps, c)
Phase-Recovers w (live i p) h = ready-Recovers i w (w.sockets i).ready refl p

-- From every world that the manager can reach with a vehicle subscribed, three events of the browser
-- at most, with no call of a page, lead to a connection that was told exactly those vehicles.
pub Reach-Recovers :
    (gateway_url : Text) {w : World}
    → Reach (initial gateway_url) w
    → w.subscribed_ids ≢ []
    → Recovers 3 w
Reach-Recovers gateway_url {w} r h = Phase-Recovers w (Reach-Phase gateway_url r) h
