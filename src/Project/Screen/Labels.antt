-- ===== src/Project/Screen/Labels.antt =====
-- The alerts on the screen, and the names of their devices.
use mathlib.Core.List.{Memᴰ}
use ops_sys.Base.{
  true, false, ◌≡◌, refl, ap, ◌∙◌, arith, if◌then◌else◌, List, [], ◌∷◌, Option, none, some, map,
  length, get_or, take, All, Bool-cases, inl, inr,
}
use ops_sys.Base.Text.{Text, text_eq, text_eq_iff}
use ops_sys.Base.Sets.{is_one}
use ops_sys.Fleet.{Vehicle}
use ops_sys.Alerts.{Alerts}
use ops_sys.Auth.{AuthState}
use ops_sys.Project.{Page, alerts, ids_of, device_label, alerts_shown}
use ops_sys.Project.Devices.{last_name, device_label_lem}
use ops_sys.Project.Live.{alerts_for, alerts_shown_for}
use ops_sys.Project.Screen.{Formats, alert_row, alerts_tab, tab_content, screen}

absent-last :
    (v : Text) (found : Option Text) (ds : List Vehicle)
    → is_one v (ids_of ds) ≡ false
    → last_name v found ds ≡ found
absent-last v found [] h = refl
absent-last v found (d ∷ ds) h = ground (arith, absent-last v found ds)

-- A label that is the name of a device of the list, which has that id.
pub record IsNamed (ds : List Vehicle) (id label : Text) : Type 0 where
  pub device : Vehicle
  pub listed : Memᴰ device ds
  pub same : device.id ≡ id
  pub named : label ≡ device.display_name

listed-last :
    (v : Text) (found : Option Text) (ds : List Vehicle)
    → is_one v (ids_of ds) ≡ true
    → (d : Vehicle) × Memᴰ d ds × (d.id ≡ v) × (last_name v found ds ≡ some d.display_name)
listed-last v found [] h = cc
listed-last v found (d ∷ ds) h = elim (Bool-cases (is_one v (ids_of ds))) [
  | inl later ↦
      let (e, m, i, n) =
        listed-last v (if text_eq d.id v then some d.display_name else found) ds later in
      (e, Memᴰ.tail m, i, n)
  | inr none_later ↦
      let here : text_eq d.id v ≡ true = ground arith in
      (
        d,
        Memᴰ.head refl,
        (text_eq_iff d.id v).0 here,
        rw here (absent-last v (some d.display_name) ds none_later),
      )
]

pub label-IsNamed :
    (ds : List Vehicle) (id : Text)
    → is_one id (ids_of ds) ≡ true
    → IsNamed ds id (device_label ds id)
label-IsNamed ds id h =
    let (d, m, i, n) = listed-last id none ds h in
    record {
      device = d;
      listed = m;
      same = i;
      named = device_label_lem ds id ∙ ap (get_or (take 8 id)) n;
    }

IsNamed-alerts :
    (ds : List Vehicle) (store : Alerts)
    → All (λ a. IsNamed ds a.device (device_label ds a.device)) (alerts_for (ids_of ds) store)
IsNamed-alerts ds [] = tt
IsNamed-alerts ds (a ∷ store) = elim (Bool-cases (is_one a.device (ids_of ds))) [
  | inl ours ↦ rw ours (label-IsNamed ds a.device ours, IsNamed-alerts ds store)
  | inr other ↦ rw other (IsNamed-alerts ds store)
]

content-alerts :
    (fmt : Formats) (s : AuthState) (store : Alerts) (p : Page)
    → p.tab ≡ alerts
    → (screen fmt s store p).content ≡ alerts_tab (map (alert_row p.devices) (alerts_shown store p))
unfolding screen tab_content
content-alerts fmt s store p on_alerts =
    ap (tab_content fmt p.devices p.feed_rows (alerts_shown store p)) on_alerts

-- With its tab open, the page lists exactly the alerts of its devices, in the order of the store, and
-- counts them on the tab; the device of each is labelled by the name of a device of the project that
-- has the id of the alert, and never by a part of the id.
pub screen-alerts :
    (fmt : Formats) (s : AuthState) (store : Alerts) (p : Page)
    → p.tab ≡ alerts
    → let ours = alerts_for (ids_of p.devices) store in
      ((screen fmt s store p).content ≡ alerts_tab (map (alert_row p.devices) ours))
      × ((screen fmt s store p).alert_count ≡ length ours)
      × All (λ a. IsNamed p.devices a.device (alert_row p.devices a).device) ours
unfolding screen alert_row
screen-alerts fmt s store p on_alerts = (
  content-alerts fmt s store p on_alerts
      ∙ ap (λ shown. alerts_tab (map (alert_row p.devices) shown)) (alerts_shown_for store p),
  ap length (alerts_shown_for store p),
  IsNamed-alerts p.devices store,
)
