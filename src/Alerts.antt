-- ===== src/Alerts.antt =====
-- server/dashboard/src/store/alertStore.ts: the alerts of the session, newest first.
pub mod Laws
mod Tests
use ops_sys.Base.{ℕ, List, [], ◌∷◌, take}
use ops_sys.Frames.{AlertFrame}

abbrev pub max_alerts : ℕ
max_alerts = 200

-- The state of the store is its field `alerts`.
abbrev pub Alerts : Type 0
Alerts = List AlertFrame

abbrev pub empty : Alerts
empty = []

unfoldable pub push : AlertFrame → Alerts → Alerts
push alert alerts = take max_alerts (alert ∷ alerts)

unfoldable pub clear : Alerts → Alerts
clear alerts = []
