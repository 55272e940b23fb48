-- ===== src/Ws/Backoff.antt =====
-- The delays between the attempts of an outage.
use native.Mathlib.Nat.{pow-suc, one-le-pow}
use Prim.Native.Nat.{◌^◌}
use ops_sys.Base.{
  ℕ, zero, suc, dec_lt, ◌-◌, ◌*◌, ◌≡◌, ◌≢◌, sym, ap, ◌∙◌, Option, none, some, arith, min, subst,
}
use ops_sys.Base.Text.{Text}
use ops_sys.Ws.Browser.{ReadyState, closed, opened}
use ops_sys.Ws.{
  World, first_delay, max_delay, on_close, on_retry, on_open, schedule_reconnect, set_status,
  set_retry, open_ws, new_socket, send,
}
use ops_sys.Ws.Steps.{initial, Reach, becomes, closes_socket, fires_timer}
use ops_sys.Ws.Phases.{Live}
use ops_sys.Ws.Phases.Preserved.{closes-Waiting, opens-Live}
use ops_sys.Ws.Phases.Settle.{Phase-Live}
use ops_sys.Ws.Phases.Events.{Reach-Phase, fires-Live}

-- The connection closes, and later the timer that this set fires.
retry_with : Option ℕ → World → World
retry_with none u = u
retry_with (some t) u = fires_timer t u

fail_with : Option ℕ → World → World
unfolding retry_with
fail_with none w = w
fail_with (some i) w = let u : World = closes_socket i w in retry_with u.retry_timer u

pub attempt : World → World
unfolding fail_with
attempt w = fail_with w.ws w

pub attempts : ℕ → World → World
attempts zero w = w
attempts (suc k) w = attempts k (attempt w)

closes-delay : (i : ℕ) (w : World) → (closes_socket i w).retry_delay ≡ w.retry_delay
unfolding on_close schedule_reconnect set_status set_retry
closes-delay i w = ground arith

fires-delay :
    (t : ℕ) (w : World) → (fires_timer t w).retry_delay ≡ min (w.retry_delay * 2) max_delay
unfolding on_retry open_ws new_socket set_status
fires-delay t w = ground arith

attempt_fires :
    (i t : ℕ) (w : World)
    → w.ws ≡ some i
    → (closes_socket i w).retry_timer ≡ some t
    → attempt w ≡ fires_timer t (closes_socket i w)
unfolding attempt
attempt_fires i t w e h = ap (λ o. fail_with o w) e ∙ ap (λ o. retry_with o (closes_socket i w)) h

attempt_lem :
    (i : ℕ) (w : World)
    → Live i w
    → ((j : ℕ) × Live j (attempt w)) × ((attempt w).retry_delay ≡ min (w.retry_delay * 2) max_delay)
attempt_lem i w p =
    let (t, q) = closes-Waiting i w p in
    subst
      (λ (u : World). ((j : ℕ) × Live j u) × (u.retry_delay ≡ min (w.retry_delay * 2) max_delay))
      (sym (attempt_fires i t w p.owned q.owned))
      (
        fires-Live t (closes_socket i w) q,
        fires-delay t (closes_socket i w)
            ∙ ap (λ (d : ℕ). min (d * 2) max_delay) (closes-delay i w),
      )

min_capped : (d most p : ℕ) → min (min (d * 2) most * suc p) most ≡ min (d * (suc p * 2)) most
min_capped d most p = elim (dec_lt most (d * 2)) [
  | yes above ↦
      let e : min (d * 2) most ≡ most = omega arith in rw e (omega (arith, ap (λ (t : ℕ). t * p) e))
  | no below ↦ let e : min (d * 2) most ≡ d * 2 = omega arith in rw e (omega arith)
]

min-double :
    (d k : ℕ) → min (min (d * 2) max_delay * 2 ^ k) max_delay ≡ min (d * 2 ^ suc k) max_delay
min-double d k =
    let e : 2 ^ k ≡ suc (2 ^ k - 1) = omega (arith, one-le-pow k 2 (omega arith)) in
    rw (pow-suc 2 k, e) (min_capped d max_delay (2 ^ k - 1))

attempts_lem :
    (k i : ℕ) (w : World)
    → Live i w
    → ((j : ℕ) × Live j (attempts k w))
      × ((attempts k w).retry_delay ≡ min (w.retry_delay * 2 ^ k) max_delay)
unfolding attempts
attempts_lem zero i w p = ((i, p), omega (arith, p.delay))
attempts_lem (suc k) i w p =
    let ((j, q), e) = attempt_lem i w p in
    let (r, h) = attempts_lem k j (attempt w) q in (r, h ∙ rw e (min-double w.retry_delay k))

on_open-delay : (w : World) → (on_open w).retry_delay ≡ first_delay
unfolding on_open send set_status
on_open-delay w = ground arith

-- The delay of the timer that is set for the next attempt.
abbrev pub armed : World → Option ℕ
armed w = elim w.retry_timer [ none ↦ none | some t ↦ w.timers t ]

armed-pending :
    (t : ℕ) (w : World) {o : Option ℕ} → w.retry_timer ≡ some t → w.timers t ≡ o → armed w ≡ o
armed-pending t w e h =
    ap (λ (x : Option ℕ). elim x as (λ _. Option ℕ) [ none ↦ none | some s ↦ w.timers s ]) e ∙ h

-- After a connection that is made and then fails `k` times in a row, each time with the retry that
-- its close asks for, the next attempt is under way; and when that closes too, the timer that is
-- set for the one after it waits one second doubled `k` times, or thirty seconds if that is less.
pub attempts-delay :
    (gateway_url : Text) {w : World} (i k : ℕ)
    → Reach (initial gateway_url) w
    → (w.sockets i).ready ≡ ReadyState.connecting
    → let u = attempts k (on_open (becomes opened i w)) in
      (j : ℕ) × (u.ws ≡ some j)
      × ((u.sockets j).ready ≢ closed)
      × (armed (closes_socket j u) ≡ some (min (1000 * 2 ^ k) 30000))
attempts-delay gateway_url {w} i k r e =
    let opening : Live i w = Phase-Live i w (Reach-Phase gateway_url r) (ground arith) in
    let u : World = on_open (becomes opened i w) in
    let ((j, p), same) = attempts_lem k i u (opens-Live i w e opening) in
    let v : World = attempts k u in
    let (t, q) = closes-Waiting j v p in
    (
      j,
      p.owned,
      p.alive,
      armed-pending t (closes_socket j v) q.owned q.pending
          ∙ ap some (
              closes-delay j v
              ∙ same
              ∙ ap (λ (d : ℕ). min (d * 2 ^ k) max_delay) (on_open-delay (becomes opened i w))),
    )
