-- ===== src/Ws/Safety.antt =====
-- What holds of the manager in every world that it can reach.
use ops_sys.Base.{ℕ, true, false, ◌≡◌, ◌≢◌, ◌≤◌, none, some, [], arith, inl, inr, ◌⊎◌, ◌↔◌}
use ops_sys.Base.Text.{Text}
use ops_sys.Ws.Browser.{ReadyState, opened}
use ops_sys.Ws.{World, disconnected, connected, first_delay, max_delay, request}
use ops_sys.Ws.Steps.{initial, Reach}
use ops_sys.Ws.Phases.{is_dead, Phase, idle, waiting, live, last_sent}
use ops_sys.Ws.Phases.Settle.{Phase-Live}
use ops_sys.Ws.Phases.Events.{Reach-Phase}

-- A socket that has a connection, or whose close would be heard.
abbrev pub IsAlive : World → ℕ → Type 0
IsAlive w i = is_dead (w.sockets i) ≡ false

abbrev pub IsPending : World → ℕ → Type 0
IsPending w t = w.timers t ≢ none

-- The only thing that can be alive or pending, a socket or a timer.
abbrev pub Only : World → Type 0
Only w =
    ((i j : ℕ) → IsAlive w i → IsAlive w j → i ≡ j)
    × ((t u : ℕ) → IsPending w t → IsPending w u → t ≡ u)
    × ((i t : ℕ) → IsAlive w i → ¬ IsPending w t)

Phase-Only : {w : World} → Phase w → Only w
Phase-Only {w} (idle p) = (
  λ i j a b. ground (arith, p.quiet.dead i),
  λ t u a b. absurd (a (p.quiet.no_timer t)),
  λ i t a b. ground (arith, p.quiet.dead i),
)
Phase-Only {w} (waiting t p) = (
  λ i j a b. ground (arith, p.dead i),
  λ u u' a b. ground (arith, p.no_other u, p.no_other u'),
  λ i u a b. ground (arith, p.dead i),
)
Phase-Only {w} (live k p) = (
  λ i j a b. ground (arith, p.others i, p.others j),
  λ t u a b. absurd (a (p.no_timer t)),
  λ i t a b. b (p.no_timer t),
)

-- In every world that the manager can reach, at most one socket is alive, at most one timer is
-- pending, and never both.
pub Reach-Only : (gateway_url : Text) {w : World} → Reach (initial gateway_url) w → Only w
Reach-Only gateway_url r = Phase-Only (Reach-Phase gateway_url r)

-- What keeps the manager going while a vehicle is subscribed.
abbrev pub Going : World → Type 0
Going w =
    ((i : ℕ) × (w.ws ≡ some i) × IsAlive w i × ((w.sockets i).has_onclose ≡ true))
    ⊎ ((t d : ℕ) × (w.timers t ≡ some d) × (first_delay ≤ d) × (d ≤ max_delay))

Phase-Going : {w : World} → Phase w → w.subscribed_ids ≢ [] → Going w
Phase-Going (idle p) h = absurd (h p.no_ids)
Phase-Going {w} (waiting t p) h =
    inr (t, w.retry_delay, p.pending, p.delay.at_least, p.delay.at_most)
Phase-Going {w} (live i p) h = inl (i, p.owned, ground (arith, p.alive, p.calls_back), p.calls_back)

-- The manager never stalls: while a vehicle is subscribed it has a socket that will call it back,
-- or a timer that will fire after one to thirty seconds.
pub Reach-Going :
    (gateway_url : Text) {w : World}
    → Reach (initial gateway_url) w
    → w.subscribed_ids ≢ []
    → Going w
Reach-Going gateway_url r = Phase-Going (Reach-Phase gateway_url r)

-- The status that the page shows.
abbrev pub Shown : World → Type 0
Shown w =
    ((w.status ≡ disconnected) ↔ (w.subscribed_ids ≡ []))
    × ((w.status ≡ connected)
        ↔ ((i : ℕ) × (w.ws ≡ some i) × IsAlive w i × ((w.sockets i).ready ≢ ReadyState.connecting)))

Phase-Shown : {w : World} → Phase w → Shown w
Phase-Shown {w} (idle p) = (
  (λ _. p.no_ids, λ _. p.shown),
  (λ e. absurd (ground (arith, p.shown)), λ (i, e, h, k). ground (arith, p.quiet.dead i)),
)
Phase-Shown {w} (waiting t p) = (
  (λ e. absurd (ground (arith, p.shown)), λ e. absurd (ground (arith, p.wanted))),
  (λ e. absurd (ground (arith, p.shown)), λ (i, e, h, k). ground (arith, p.dead i)),
)
Phase-Shown {w} (live i p) = (
  (λ e. absurd (ground (arith, p.shown, p.alive)), λ e. absurd (ground (arith, p.wanted))),
  (
    λ e. (i, p.owned, ground (arith, p.alive, p.calls_back), ground (arith, p.shown)),
    λ (j, e, h, k). ground (arith, p.shown, p.owned, p.alive),
  ),
)

-- In every world that the manager can reach, the status is `disconnected` exactly when no vehicle
-- is subscribed, and `connected` exactly when the manager's socket is alive and has been opened.
pub Reach-Shown : (gateway_url : Text) {w : World} → Reach (initial gateway_url) w → Shown w
Reach-Shown gateway_url r = Phase-Shown (Reach-Phase gateway_url r)

Phase-told :
    {w : World} (i : ℕ)
    → Phase w
    → (w.sockets i).ready ≡ opened
    → (w.ws ≡ some i) × (last_sent w ≡ some (i, request w))
Phase-told {w} i p e = let q = Phase-Live i w p (ground arith) in (q.owned, q.told e)

-- Whenever a socket is open, it is the manager's, and the last request sent went to it and named
-- the vehicles that are subscribed now: the gateway's view is never out of date.
pub Reach-told :
    (gateway_url : Text) {w : World} (i : ℕ)
    → Reach (initial gateway_url) w
    → (w.sockets i).ready ≡ opened
    → (w.ws ≡ some i) × (last_sent w ≡ some (i, request w))
Reach-told gateway_url i r = Phase-told i (Reach-Phase gateway_url r)
