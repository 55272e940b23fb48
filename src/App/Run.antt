-- ===== src/App/Run.antt =====
-- Every event keeps what holds of the dashboard.
use ops_sys.Base.{Bool, false, ◌≡◌, refl, sym, ap, ◌∙◌, subst, Option, none, some, List, [], ◌∷◌}
use ops_sys.Base.Text.{Text}
use ops_sys.Base.Sets.{has}
use ops_sys.Fleet.{Vehicle}
use ops_sys.Auth.{AuthState, load_existing}
use ops_sys.Auth.Session
use ops_sys.Http.{after_response}
use ops_sys.Ws.Steps.{here, next, stores_change}
use ops_sys.Shell.{Route, lacks_token, sign_out, auth_callback}
use ops_sys.Project.Watch.{set_devices}
use ops_sys.App.{
  App, Place, project_of, inside, show_light, show, commit, reading, at_route, unmounted, Event,
  session, response, signs_out, calls_back, goes, checks, sets, frame, connection, checked, after,
  run, opened_at,
}
use ops_sys.App.Manager.{happens-Happened}
use ops_sys.App.Settle.{ends, settle-ends, IsPlaced, ends-IsPlaced}
use ops_sys.App.Invariant.{IsUsed, IsShown, IsApp}
use ops_sys.App.Invariant.Light.{show_light-IsLit, world_change}
use ops_sys.App.Invariant.Page.{
  set_devices-IsUsed, animation_frame-IsUsed, show_project-IsUsed, happens-IsUsed,
  show_project-IsShown, set_devices-IsShown, animation_frame-IsShown,
}

module _ (gateway_url : Text) where
  -- What holds between a change of the session or of the place and the effects of the new view.
  record IsChanged (a : App) : Type 0 where
    used : IsUsed gateway_url a.auth.token a.light a.watch.world
    shown : IsShown (project_of a.view) a.watch

  show-IsApp :
      (p : Place) (a : App) → IsPlaced a.auth p → IsChanged a → IsApp gateway_url (show p a)
  unfolding show
  show-IsApp p a placed h =
      let lit = show_light (inside p.view) a in
      let l = show_light-IsLit gateway_url (inside p.view) a h.used h.shown in
      record {
        used =
            subst (λ s. IsUsed gateway_url s.token lit.light (show p a).watch.world) (sym l.auth)
              (show_project-IsUsed gateway_url a.auth.token lit.light (project_of a.view)
                (project_of p.view) lit.watch l.used);
        shown = show_project-IsShown (project_of a.view) (project_of p.view) lit.watch l.shown;
        lit = l.lit;
        guarded = λ i. ap lacks_token l.auth ∙ placed i;
      }

  commit-IsApp : (a : App) → IsChanged (reading a) → IsApp gateway_url (commit a)
  unfolding commit
  commit-IsApp a h =
      let b : App = reading a in
      subst (λ o. IsApp gateway_url (elim o [ none ↦ b | some p ↦ show p b ]))
        (sym (settle-ends a.guard a.auth a.route))
        (show-IsApp (ends a.guard a.auth a.route) b (ends-IsPlaced a.guard a.auth a.route) h)

  -- The session changes, and the manager reads its token; then the place and the guard.
  moves-IsChanged :
      (s : AuthState) (g : Option Bool) (r : Route) (a : App)
      → IsApp gateway_url a
      → IsChanged (reading (record a { auth = s; guard = g; route = r }))
  moves-IsChanged s g r a h = record {
    used = record {
      reached =
          next h.used.reached (stores_change s.token a.watch.world.telemetry a.watch.world.alerts);
      token_read = refl;
      heard = h.used.heard;
    };
    shown = world_change gateway_url (project_of a.view) a.watch _ refl h.shown;
  }

  session-IsApp :
      (s : AuthState) (g : Option Bool) (o : Option Route) (a : App)
      → IsApp gateway_url a
      → IsApp gateway_url (commit (at_route o (record a { auth = s; guard = g })))
  session-IsApp s g none a h =
      commit-IsApp (record a { auth = s; guard = g }) (moves-IsChanged s g a.route a h)
  session-IsApp s g (some r) a h =
      commit-IsApp (record a { auth = s; guard = g; route = r }) (moves-IsChanged s g r a h)

  sets-IsApp :
      (ds : List Vehicle) (a : App)
      → IsApp gateway_url a
      → IsApp gateway_url (elim (project_of a.view) [
        | none ↦ a
        | some n ↦ record a { watch = set_devices ds (reading a).watch }
      ])
  sets-IsApp ds a h = go (project_of a.view) refl
    where
      c : IsChanged (reading a)
      c = moves-IsChanged a.auth a.guard a.route a h

      go :
          (o : Option Text)
          → project_of a.view ≡ o
          → IsApp gateway_url
              (elim o [ none ↦ a | some n ↦ record a { watch = set_devices ds (reading a).watch } ])
      go none e = h
      go (some n) e = record {
        used = set_devices-IsUsed gateway_url a.auth.token a.light ds (reading a).watch c.used;
        shown =
            subst (λ o. IsShown o (set_devices ds (reading a).watch)) (sym e)
              (set_devices-IsShown n ds (reading a).watch
                (subst (λ o. IsShown o (reading a).watch) e c.shown));
        lit = h.lit;
        guarded = h.guarded;
      }

  after-IsApp : (a : App) (e : Event) → IsApp gateway_url a → IsApp gateway_url (after a e)
  unfolding after
  after-IsApp a (session e) h = session-IsApp (Session.step a.auth e) a.guard none a h
  after-IsApp a (response status) h = session-IsApp (after_response status a.auth) a.guard none a h
  after-IsApp a signs_out h = session-IsApp (sign_out a.auth).0 a.guard (sign_out a.auth).1 a h
  after-IsApp a (calls_back result) h =
      session-IsApp (auth_callback false result a.auth).0 a.guard
        (auth_callback false result a.auth).1 a h
  after-IsApp a (goes r) h =
      commit-IsApp (record a { route = r }) (moves-IsChanged a.auth a.guard r a h)
  after-IsApp a (checks r) h = session-IsApp (load_existing r a.auth) (checked a.guard) none a h
  after-IsApp a (sets ds) h = sets-IsApp ds a h
  after-IsApp a (frame k) h = record {
    used = animation_frame-IsUsed gateway_url a.auth.token a.light k a.watch h.used;
    shown = animation_frame-IsShown (project_of a.view) k a.watch h.shown;
    lit = h.lit;
    guarded = h.guarded;
  }
  after-IsApp a (connection e) h = record {
    used =
        happens-IsUsed gateway_url a.auth.token a.light e (reading a).watch.world
          (moves-IsChanged a.auth a.guard a.route a h).used;
    shown =
        world_change gateway_url (project_of a.view) a.watch _
          (happens-Happened e (reading a).watch.world).leaves.ids h.shown;
    lit = h.lit;
    guarded = h.guarded;
  }

  run-IsApp : (a : App) (es : List Event) → IsApp gateway_url a → IsApp gateway_url (run a es)
  unfolding run
  run-IsApp a [] h = h
  run-IsApp a (e ∷ es) h = run-IsApp (after a e) es (after-IsApp a e h)

  unmounted-IsChanged : (r : Route) → IsChanged (unmounted gateway_url r)
  unmounted-IsChanged r = record {
    used = record { reached = here; token_read = refl; heard = refl };
    shown = record {
      watching = record { subscribed = λ v. unfold has in refl; pending = refl };
      gone = λ e. refl;
    };
  }

  -- The dashboard, opened at any address, after any events.
  pub opened_at-IsApp :
      (r : Route) (es : List Event) → IsApp gateway_url (run (opened_at gateway_url r) es)
  unfolding opened_at
  opened_at-IsApp r es =
      run-IsApp (commit (unmounted gateway_url r)) es
        (commit-IsApp (unmounted gateway_url r) (unmounted-IsChanged r))
