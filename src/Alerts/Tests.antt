-- ===== src/Alerts/Tests.antt =====
-- The alert store on a short history, and the theorem about it there.
use ops_sys.Base.{◌≤◌, ◌≡◌, refl, List, [], ◌∷◌, length, take}
use ops_sys.Base.Text.{codes}
use ops_sys.Frames.{AlertFrame}
use ops_sys.Alerts.{max_alerts, empty, push, clear}
use ops_sys.Alerts.Laws.{Event, pushes, clears, run, since_clear, run_lem}

abbrev fog : AlertFrame
fog = record { device = codes "drone"; level = codes "warning"; message = codes "fog" }

abbrev ice : AlertFrame
ice = record { device = codes "rover"; level = codes "error"; message = codes "ice" }

abbrev history : List Event
history = pushes ice ∷ clears ∷ pushes fog ∷ pushes ice ∷ []

newest_first : run empty history ≡ ice ∷ fog ∷ []
unfolding run push clear
newest_first = refl

run_lem_example :
    (run empty history ≡ take max_alerts (since_clear [] history))
    × (length (run empty history) ≤ max_alerts)
run_lem_example = run_lem history
