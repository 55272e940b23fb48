-- ===== src/Project/Markup/Clicks.antt =====
-- What the clicks on the page do: no more than the events of the page in Project/Pending.antt.
use ops_sys.Base.{
  ℕ, true, false, ◌≡◌, refl, sym, ap, ◌||◌, ◌&&◌, not, List, [], ◌∷◌, All, if_true, and_not,
}
use ops_sys.Base.Text.{Text, codes, trim, is_blank}
use ops_sys.Auth.{AuthState, is_admin}
use ops_sys.Alerts.{Alerts}
use ops_sys.Markup.{Node, div, tag, button, offered, click}
use ops_sys.Markup.Clicks.{Ran, click-All, Offers, tag-All, when-All, button-All, button_unless-All}
use ops_sys.Modal.Dialog.{modal-All}
use ops_sys.Project.{stream, alerts, View, spinner, error_view, panel, view}
use ops_sys.Project.Screen.{
  Formats, DeviceRow, StreamRow, AlertRow, TabContent, no_telemetry, no_alerts, table, alert_list,
  Screen, screen,
}
use ops_sys.Project.Pending.{
  Live, form_shown, press_add, press_retry, shows_add, closes_add, picks_tab, edit, Event, adds,
  retries, edits, after,
}
use ops_sys.Project.Markup.{
  Act, runs, goes_home, handle_add, retry, device_nodes, device_list, stream_nodes, stream_head,
  alert_nodes, content_nodes, open_add, close_add, set_tab, sidebar_header, alerts_label, tabs,
  top_nodes, add_label, add_buttons, add_body, aside_parts, main_parts, parts, error_parts,
  project_page,
}

-- The events that are a click on what the page shows.
abbrev pub IsClick : AuthState → Event → Type 0
IsClick a adds = Unit
IsClick a retries = Unit
IsClick a (edits shows_add) = is_admin a ≡ true
IsClick a (edits closes_add) = Unit
IsClick a (edits (picks_tab t)) = Unit
IsClick a e = ⊥

abbrev pub Does : AuthState → Live → Act → Type 0
Does a s (runs f) = (e : Event) × IsClick a e × (f s ≡ after s e)
Does a s goes_home = Unit

module _ (P : Act → Type 0) where
  devices-All : (ds : List DeviceRow) → All (Offers P) (device_nodes ds)
  unfolding device_nodes offered
  devices-All [] = tt
  devices-All (d ∷ ds) = (tt, devices-All ds)

  device_list-Offers : (ds : List DeviceRow) → Offers P (device_list ds)
  unfolding offered
  device_list-Offers [] = tt
  device_list-Offers (d ∷ ds) =
      tag-All P (codes "div") (device_nodes (d ∷ ds)) (devices-All (d ∷ ds))

  stream-All : (rs : List StreamRow) → All (Offers P) (stream_nodes rs)
  unfolding stream_nodes offered
  stream-All [] = tt
  stream-All (r ∷ rs) = (tt, stream-All rs)

  alerts-All : (rs : List AlertRow) → All (Offers P) (alert_nodes rs)
  unfolding alert_nodes offered
  alerts-All [] = tt
  alerts-All (r ∷ rs) = (tt, alerts-All rs)

  table-Offers :
      (rs : List StreamRow)
      → Offers P (tag (codes "table") (stream_head ∷ tag (codes "tbody") (stream_nodes rs) ∷ []))
  unfolding offered
  table-Offers rs =
      tag-All P (codes "table") (stream_head ∷ tag (codes "tbody") (stream_nodes rs) ∷ [])
        (tt, (tag-All P (codes "tbody") (stream_nodes rs) (stream-All rs), tt))

  content-All : (c : TabContent) → All (Offers P) (content_nodes c)
  unfolding content_nodes offered
  content-All no_telemetry = (tt, tt)
  content-All no_alerts = (tt, tt)
  content-All (table rs) = (table-Offers rs, tt)
  content-All (alert_list rs) = alerts-All rs

module _ (fmt : Formats) (a : AuthState) (store : Alerts) (s : Live) where
  abbrev D : Act → Type 0
  D = Does a s

  abbrev v : Screen
  unfolding screen
  v = screen fmt a store s.front.page

  add-Does :
      form_shown s.front.page ≡ true
      → (s.front.page.adding || is_blank (trim s.front.page.dev_name)) ≡ false
      → D (runs handle_add)
  unfolding after press_add
  add-Does e f = (
    adds,
    tt,
    let off = s.front.page.adding || is_blank (trim s.front.page.dev_name) in
        if_true (handle_add s) s (form_shown s.front.page && not off)
          (and_not (form_shown s.front.page) off e f),
  )

  body-All : form_shown s.front.page ≡ true → All (Offers D) (add_body s.front.page)
  unfolding offered after edit
  body-All e =
      let p = s.front.page in
      (
        tt,
        (
          tt,
          (
            tt,
            (
              tag-All D (codes "div") (add_buttons p) (
                button-All D close_add (codes "Cancel") (edits closes_add, tt, refl),
                (
                  button_unless-All D (p.adding || is_blank (trim p.dev_name)) (runs handle_add)
                      (add_label p) (add-Does e),
                  tt,
                ),
              ),
              tt,
            ),
          ),
        ),
      )

  header-All : All (Offers D) (sidebar_header v)
  unfolding screen offered after edit
  header-All = (
    tt,
    when-All D (is_admin a) (button open_add (codes "+ Add"))
        (λ e. button-All D open_add (codes "+ Add") (edits shows_add, e, refl)),
  )

  main-All : All (Offers D) (main_parts fmt v)
  unfolding screen offered after edit
  main-All = (
    tag-All D (codes "div") (top_nodes v)
        (button-All D goes_home (codes "← Projects") tt, (tt, tt)),
    (
      tag-All D (codes "div") (tabs fmt v) (
        button-All D (set_tab stream) (codes "Data Stream") (edits (picks_tab stream), tt, refl),
        (
          button-All D (set_tab alerts) (alerts_label fmt v.alert_count)
              (edits (picks_tab alerts), tt, refl),
          tt,
        ),
      ),
      (tag-All D (codes "div") (content_nodes v.content) (content-All D v.content), tt),
    ),
  )

  parts-All : view s.front.page ≡ panel → All (Offers D) (parts fmt v s.front.page)
  unfolding screen offered after edit
  parts-All e = (
    tag-All D (codes "aside") (aside_parts v) (
      tag-All D (codes "div") (sidebar_header v) header-All,
      (device_list-Offers D v.devices, tt),
    ),
    (
      tag-All D (codes "div") (main_parts fmt v) main-All,
      modal-All D s.front.page.show_add close_add (codes "Add Device") (add_body s.front.page)
          (λ _. (edits closes_add, tt, refl)) (λ f. body-All (rw (e, f) refl)),
    ),
  )

  retry-Does : (message : Text) → view s.front.page ≡ error_view message → D (runs retry)
  unfolding after press_retry retry
  retry-Does message e = (
    retries,
    tt,
    sym (
        ap
          (λ (w : View). elim w as (λ _. Live) [ spinner ↦ s | panel ↦ s | error_view t ↦ retry s ])
          e),
  )

  view-Offers :
      (w : View)
      → view s.front.page ≡ w
      → Offers D (elim w as (λ _. Node Act) [
        | spinner ↦ div (div (div [] ∷ []) ∷ [])
        | error_view message ↦ div (div (error_parts message) ∷ [])
        | panel ↦ div (parts fmt v s.front.page)
      ])
  unfolding offered
  view-Offers spinner e = tt
  view-Offers (error_view message) e = tag-All D (codes "div") (div (error_parts message) ∷ []) (
    tag-All D (codes "div") (error_parts message)
        (tt, (button-All D (runs retry) (codes "Retry") (retry-Does message e), tt)),
    tt,
  )
  view-Offers panel e = tag-All D (codes "div") (parts fmt v s.front.page) (parts-All e)

  -- Whatever element of the rendered page of a project is clicked, each handler that runs does
  -- what an event of a click does with its guard, of a button or of the dialog: it sends a
  -- device only from the open form, where `adding` is not set and the name is not blank, opens
  -- the form only for an administrator, and loads the devices again only where an error is
  -- shown; or it goes to the list of projects.
  pub click-project_page :
      (path : List ℕ) → Ran (Does a s) (click path (project_page fmt a store s.front.page))
  unfolding project_page
  click-project_page path =
      click-All D path (project_page fmt a store s.front.page)
        (view-Offers (view s.front.page) refl)
