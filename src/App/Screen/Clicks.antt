-- ===== src/App/Screen/Clicks.antt =====
-- Where the links and buttons around the pages lead.
use ops_sys.Base.{ℕ, Bool, true, false, ◌≡◌, refl, ap, Option, none, some, List, [], ◌∷◌, get_or}
use ops_sys.Base.Text.{Text, codes}
use ops_sys.Ws.{WsStatus}
use ops_sys.Markup.{said, Node, tag, div, offered, click}
use ops_sys.Markup.Clicks.{Ran, click-All, Offers, tag-All}
use ops_sys.Shell.{
  Route, home, team, api_keys, callback, unknown, project, View, spinner, page, goes_to, nav_shown,
  sidebar_user, lacks_token, page_title,
}
use ops_sys.App.{App, inside, Event, run, opened_at}
use ops_sys.App.Standing.{IsAt, opened_at-IsStanding}
use ops_sys.App.Run.{opened_at-IsApp}
use ops_sys.App.Screen.Leads.{Leads, links-Leads, signs_out-Leads, logs_in-Leads, signs_up-Leads}
use ops_sys.App.Screen.Labels.{Labelled, labels_of, screen-Labelled}
use ops_sys.App.Screen.{
  login_page, nav_links, sidebar_parts, nav_sidebar, ws_indicator, top_bar, in_layout, screen,
}

abbrev OnScreen : App → Option (Node Event) → Type 0
OnScreen a none = Unit
OnScreen a (some n) = Offers (Leads a) n

login-All :
    (a : App) → a.route ≡ Route.login → a.view ≡ page Route.login → Offers (Leads a) login_page
unfolding offered
login-All a e f = (logs_in-Leads a e f, (signs_up-Leads a e f, tt))

sidebar-Offers :
    (a : App) (avatar : Text)
    → get_or false a.guard ≡ true
    → lacks_token a.auth ≡ false
    → Offers (Leads a) (tag (codes "nav") (sidebar_parts a.auth avatar))
unfolding offered
sidebar-Offers a avatar checked token =
    tag-All (Leads a) (codes "nav") (sidebar_parts a.auth avatar) (
      tt,
      (
        tag-All (Leads a) (codes "ul") (nav_links (nav_shown a.auth)) (links-Leads a checked token),
        ((signs_out-Leads a, tt), tt),
      ),
    )

nav_sidebar-OnScreen :
    (to_upper : Text → Text) (a : App)
    → get_or false a.guard ≡ true
    → lacks_token a.auth ≡ false
    → OnScreen a (nav_sidebar to_upper a.auth)
unfolding nav_sidebar
nav_sidebar-OnScreen to_upper a checked token = with_avatar (sidebar_user a.auth).avatar
  where
    with_avatar :
        (o : Option Text)
        → OnScreen a (elim o as (λ x. Option (Node Event)) [
          | none ↦ none
          | some initials ↦ some (tag (codes "nav") (sidebar_parts a.auth (to_upper initials)))
        ])
    with_avatar none = tt
    with_avatar (some initials) = sidebar-Offers a (to_upper initials) checked token

bar-Offers :
    (status : WsStatus) (a : App) (title : Text)
    → Offers (Leads a) (tag (codes "header") (said (codes "span") title ∷ ws_indicator status ∷ []))
unfolding offered ws_indicator
bar-Offers status a title = tt

top_bar-OnScreen :
    (decode : Text → Option Text) (pathname : Text) (status : WsStatus) (a : App)
    → OnScreen a (top_bar decode pathname status)
unfolding top_bar
top_bar-OnScreen decode pathname status a = titled (page_title decode pathname)
  where
    titled :
        (o : Option Text)
        → OnScreen a (elim o as (λ x. Option (Node Event)) [
          | none ↦ none
          | some title ↦
              some (tag (codes "header") (said (codes "span") title ∷ ws_indicator status ∷ []))
        ])
    titled none = tt
    titled (some title) = bar-Offers status a title

main-Offers : (a : App) → Offers (Leads a) (tag (codes "main") [])
unfolding offered
main-Offers a = tt

in_layout-OnScreen :
    (a : App) (m n : Option (Node Event)) → OnScreen a m → OnScreen a n → OnScreen a (in_layout m n)
in_layout-OnScreen a (some m) (some n) h k =
    let bar =
      tag-All (Leads a) (codes "div") (n ∷ tag (codes "main") [] ∷ []) (k, (main-Offers a, tt)) in
    tag-All (Leads a) (codes "div") (m ∷ div (n ∷ tag (codes "main") [] ∷ []) ∷ []) (h, (bar, tt))
in_layout-OnScreen a none n h k = tt
in_layout-OnScreen a (some m) none h k = tt

module _ (to_upper : Text → Text) (decode : Text → Option Text) (pathname : Text)
    (status : WsStatus) (a : App) where
  around_page :
      a.guard ≡ some true
      → lacks_token a.auth ≡ false
      → OnScreen a (in_layout (nav_sidebar to_upper a.auth) (top_bar decode pathname status))
  around_page e token =
      in_layout-OnScreen a (nav_sidebar to_upper a.auth) (top_bar decode pathname status)
        (nav_sidebar-OnScreen to_upper a (ap (get_or false) e) token)
        (top_bar-OnScreen decode pathname status a)

  screen-OnScreen :
      (v : View)
      → a.view ≡ v
      → IsAt a.guard a.route v
      → (inside v ≡ true → lacks_token a.auth ≡ false)
      → OnScreen a (screen to_upper decode pathname status a.auth v)
  unfolding screen offered
  screen-OnScreen spinner e h token = tt
  screen-OnScreen (goes_to r) e h token = tt
  screen-OnScreen (page Route.login) e h token = login-All a h.0 e
  screen-OnScreen (page callback) e h token = tt
  screen-OnScreen (page home) e h token = around_page (h.1 refl) (token refl)
  screen-OnScreen (page team) e h token = around_page (h.1 refl) (token refl)
  screen-OnScreen (page api_keys) e h token = around_page (h.1 refl) (token refl)
  screen-OnScreen (page (project name)) e h token = around_page (h.1 refl) (token refl)
  screen-OnScreen (page unknown) e h token = tt

abbrev pub clicked : List ℕ → Option (Node Event) → Option (List Event × Bool)
clicked path none = none
clicked path (some n) = click path n

-- After any events, where the rendering does not throw: what is shown around the pages has exactly
-- these links and buttons, each with its own handler. Around a page below the guard they are
-- `Projects`, then for an administrator `Team` and `API Keys`, which go to these pages, then `Sign
-- out`; on the login page `Sign in with Email` and `Create an account`; elsewhere there are none.
-- Whatever element there is clicked: a link shows the page of its route, without a redirect to another
-- one; `Sign out` ends at the login page with no token; and the two buttons of the login page keep the
-- place and the session, and send the browser to the identity provider, to sign in or to register.
pub click-screen :
    (to_upper : Text → Text) (decode : Text → Option Text) (pathname : Text) (status : WsStatus)
    (gateway_url : Text) (r : Route) (es : List Event) (path : List ℕ)
    → let a = run (opened_at gateway_url r) es in
      let shown = screen to_upper decode pathname status a.auth a.view in
      Labelled shown (labels_of a.auth a.view) × Ran (Leads a) (clicked path shown)
click-screen to_upper decode pathname status gateway_url r es path =
    let a = run (opened_at gateway_url r) es in
    let h =
      screen-OnScreen to_upper decode pathname status a a.view refl
        (opened_at-IsStanding gateway_url r es).at (opened_at-IsApp gateway_url r es).guarded in
    (
      screen-Labelled to_upper decode pathname status a.auth a.view,
      on_click a (screen to_upper decode pathname status a.auth a.view) h,
    )
  where
    on_click : (a : App) (o : Option (Node Event)) → OnScreen a o → Ran (Leads a) (clicked path o)
    on_click a none h = tt
    on_click a (some n) h = click-All (Leads a) path n h
