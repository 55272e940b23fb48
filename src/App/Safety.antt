-- ===== src/App/Safety.antt =====
-- The dashboard as a whole: its session, its place, its page and its connection together.
use ops_sys.Base.{ℕ, true, false, ◌≡◌, refl, ap, ◌∙◌, Option, none, some, List, [], ◌∷◌, arith}
use ops_sys.Base.Text.{Text, text_eq_refl}
use ops_sys.Base.Sets.{has, is_one}
use ops_sys.Fleet.{Vehicle}
use ops_sys.Ws.{World, disconnected, request}
use ops_sys.Ws.Browser.{opened}
use ops_sys.Ws.Phases.{Phase, idle, waiting, live, last_sent}
use ops_sys.Ws.Phases.Events.{Reach-Phase}
use ops_sys.Ws.Safety.{IsAlive, IsPending, Reach-told}
use ops_sys.Shell.{
  Route, View, spinner, page, login, callback, home, team, api_keys, unknown, goes_to, project,
  lacks_token,
}
use ops_sys.Project.{ids_of}
use ops_sys.Project.Watch.Invariant.{awaited}
use ops_sys.App.{App, project_of, inside, Event, run, opened_at}
use ops_sys.App.Invariant.{listeners_of, is_lit, IsApp}
use ops_sys.App.Run.{opened_at-IsApp}

empty_set : (ids : List Text) → ((v : Text) → has v ids ≡ false) → ids ≡ []
unfolding has
empty_set [] h = refl
empty_set (v ∷ ids) h = let here = h v in ground (arith, text_eq_refl v)

outside : (v : View) → inside v ≡ false → project_of v ≡ none
outside spinner h = refl
outside (goes_to r) h = refl
outside (page login) h = refl
outside (page callback) h = refl
outside (page unknown) h = refl
outside (page home) h = refl
outside (page team) h = refl
outside (page api_keys) h = refl
outside (page (project n)) h = ground arith

unlit : (l : Option ℕ) → is_lit l ≡ false → l ≡ none
unlit none e = refl
unlit (some fn) e = ground arith

-- Nothing is left of a connection, and nobody listens to it.
pub record IsQuiet (a : App) : Type 0 where
  pub no_ids : a.watch.world.subscribed_ids ≡ []
  pub off : a.watch.world.status ≡ disconnected
  pub no_socket : (i : ℕ) → ¬ IsAlive a.watch.world i
  pub no_timer : (t : ℕ) → ¬ IsPending a.watch.world t
  pub no_frame : a.watch.requested ≡ []

Phase-quiet :
    {w : World}
    → Phase w
    → w.subscribed_ids ≡ []
    → (w.status ≡ disconnected) × ((i : ℕ) → ¬ IsAlive w i) × ((t : ℕ) → ¬ IsPending w t)
Phase-quiet {w} (idle p) e =
    (p.shown, λ i h. ground (arith, p.quiet.dead i), λ t h. h (p.quiet.no_timer t))
Phase-quiet (waiting t p) e = absurd (ground (arith, e, p.wanted.nonempty))
Phase-quiet (live i p) e = absurd (ground (arith, e, p.wanted.nonempty))

IsApp-IsQuiet :
    (gateway_url : Text) (a : App) → IsApp gateway_url a → project_of a.view ≡ none → IsQuiet a
IsApp-IsQuiet gateway_url a h out =
    let no_device : a.watch.page.devices ≡ [] = h.shown.gone out in
    let no_ids : a.watch.world.subscribed_ids ≡ [] =
      empty_set a.watch.world.subscribed_ids
        (λ v. h.shown.watching.subscribed v ∙ ap (λ ds. is_one v (ids_of ds)) no_device) in
    let q = Phase-quiet (Reach-Phase gateway_url h.used.reached) no_ids in
    record {
      no_ids = no_ids;
      off = q.0;
      no_socket = q.1;
      no_timer = q.2;
      no_frame = h.shown.watching.pending ∙ ap (awaited a.watch.raf) no_device;
    }

-- While the session has no token, whatever happened before, the view is none of the pages below the
-- guard and no status light listens; and the dashboard is quiet: no vehicle is subscribed, no socket is
-- alive, no timer of the manager and no animation frame of the page is pending, and the status is
-- `disconnected`. Of the stores of the telemetry and the alerts it says nothing.
pub run-signed_out :
    (gateway_url : Text) (r : Route) (es : List Event)
    → lacks_token (run (opened_at gateway_url r) es).auth ≡ true
    → let a = run (opened_at gateway_url r) es in
      (inside a.view ≡ false) × (a.watch.world.listeners ≡ []) × IsQuiet a
run-signed_out gateway_url r es lacks =
    let a : App = run (opened_at gateway_url r) es in
    let h : IsApp gateway_url a = opened_at-IsApp gateway_url r es in
    let out : inside a.view ≡ false = ground (arith, h.guarded, lacks) in
    (
      out,
      h.used.heard ∙ ap listeners_of (unlit a.light (h.lit ∙ out)),
      IsApp-IsQuiet gateway_url a h (outside a.view out),
    )

-- The devices of the project that is shown.
abbrev pub devices_shown : App → List Vehicle
devices_shown a = elim (project_of a.view) [ none ↦ [] | some n ↦ a.watch.page.devices ]

shown_all :
    (o : Option Text) (ds : List Vehicle)
    → (o ≡ none → ds ≡ [])
    → ds ≡ elim o [ none ↦ [] | some n ↦ ds ]
shown_all none ds h = h refl
shown_all (some n) ds h = refl

-- Whatever happened: the vehicles that are subscribed are those of the project that is shown, and none
-- if no project is; an open socket is the manager's, and the last request sent named exactly them; and
-- one status light listens while the top bar is there, and none else.
pub run-subscribed :
    (gateway_url : Text) (r : Route) (es : List Event)
    → let a = run (opened_at gateway_url r) es in
      let w = a.watch.world in
      ((v : Text) → has v w.subscribed_ids ≡ is_one v (ids_of (devices_shown a)))
      × ((i : ℕ)
          → (w.sockets i).ready ≡ opened
          → (w.ws ≡ some i) × (last_sent w ≡ some (i, request w)))
      × (w.listeners ≡ listeners_of a.light)
      × (is_lit a.light ≡ inside a.view)
run-subscribed gateway_url r es =
    let a : App = run (opened_at gateway_url r) es in
    let h : IsApp gateway_url a = opened_at-IsApp gateway_url r es in
    (
      λ v.
          h.shown.watching.subscribed v
          ∙ ap (λ ds. is_one v (ids_of ds))
              (shown_all (project_of a.view) a.watch.page.devices h.shown.gone),
      λ i o. Reach-told gateway_url i h.used.reached o,
      h.used.heard,
      h.lit,
    )
