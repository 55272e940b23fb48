-- ===== src/Alerts/Laws.antt =====
-- The list of alerts after any history.

use ops_sys.Base.{
  ◌≤◌, ◌≡◌, refl, ap, ◌∙◌, List, [], ◌∷◌, arith, length, take, length-take, take-cons-take,
}
use ops_sys.Frames.{AlertFrame}
use ops_sys.Alerts.{Alerts, max_alerts, empty, push, clear}

pub data Event : Type 0 where
  pushes : AlertFrame → Event
  clears : Event

unfoldable pub run : Alerts → List Event → Alerts
unfolding push clear
run s [] = s
run s (pushes a ∷ es) = run (push a s) es
run s (clears ∷ es) = run (clear s) es

-- All alerts since the last clear, newest first.
abbrev pub since_clear : List AlertFrame → List Event → List AlertFrame
since_clear seen [] = seen
since_clear seen (pushes a ∷ es) = since_clear (a ∷ seen) es
since_clear seen (clears ∷ es) = since_clear [] es

-- A push on a list that was cut already.
pub push-take :
    (a : AlertFrame) (s seen : List AlertFrame) → s ≡ take 200 seen → push a s ≡ take 200 (a ∷ seen)
unfolding push
push-take a s seen h = rw h (take-cons-take max_alerts a seen)

run-take :
    (seen : List AlertFrame) (es : List Event)
    → run (take max_alerts seen) es ≡ take max_alerts (since_clear seen es)
unfolding run
run-take seen [] = refl
run-take seen (pushes a ∷ es) =
    ap (λ (s : Alerts). run s es) (take-cons-take max_alerts a seen) ∙ run-take (a ∷ seen) es
run-take seen (clears ∷ es) = run-take [] es

-- After any history of pushes and clears, the store has the newest two hundred of the alerts that
-- came since the last clear, newest first, and so never more than two hundred.
pub run_lem :
    (es : List Event)
    → (run empty es ≡ take max_alerts (since_clear [] es)) × (length (run empty es) ≤ max_alerts)
run_lem es = (same, rw same (omega (arith, length-take max_alerts (since_clear [] es))))
  where
    same : run empty es ≡ take max_alerts (since_clear [] es)
    same = run-take [] es
