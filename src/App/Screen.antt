-- ===== src/App/Screen.antt =====
-- What App.tsx renders around the page of a route, and in its place while there is none:
-- components/NavSidebar/NavSidebar.tsx, components/TopBar/TopBar.tsx and pages/Login/LoginPage.tsx.
-- A handler is the event of the dashboard that it makes.
pub mod Leads
pub mod Labels
pub mod Clicks
use ops_sys.Base.{ℕ, Bool, true, false, Option, none, some, List, [], ◌∷◌, ◌++◌, if◌then◌else◌}
use ops_sys.Base.Text.{Text, codes}
use ops_sys.Auth.{AuthState}
use ops_sys.Auth.Session.{logs_in, signs_up}
use ops_sys.Ws.{WsStatus, connected, connecting, disconnected}
use ops_sys.Markup.{Props, Node, text, element, plain, nodes, tag, div, said}
use ops_sys.Shell.{
  Route, login, callback, unknown, View, spinner, page, goes_to, NavItem, nav_shown, SidebarUser,
  sidebar_user, page_title,
}
use ops_sys.App.{App, Event, session, signs_out, goes}

abbrev pub handler : Event → Props Event
handler e = record plain { on_click = some e }

-- `<svg>`, whose shapes are left out.
abbrev pub icon : Node Event
icon = tag (codes "svg") []

abbrev pub login_parts : List (Node Event)
login_parts =
    div (icon ∷ [])
    ∷ said (codes "h1") (codes "SystemScale")
    ∷ said (codes "p") (codes "Operator Dashboard")
    ∷ element (codes "button") (handler (session logs_in))
        (nodes (icon ∷ text (codes "Sign in with Email") ∷ []))
    ∷ div (said (codes "span") (codes "or") ∷ [])
    ∷ element (codes "button") (handler (session signs_up))
        (nodes (text (codes "Create an account") ∷ []))
    ∷ said (codes "p") (codes "Secured by Keycloak OIDC · PKCE flow")
    ∷ []

-- `LoginPage`
abbrev pub login_page : Node Event
login_page = div (div [] ∷ div login_parts ∷ [])

-- `NavLink` goes to its path at a click.
abbrev pub nav_link : NavItem → Node Event
nav_link item = tag (codes "li") (
    element (codes "a") (handler (goes item.to))
      (nodes (tag (codes "span") (icon ∷ []) ∷ text item.label ∷ []))
    ∷ [])

unfoldable pub nav_links : List NavItem → List (Node Event)
nav_links [] = []
nav_links (item ∷ items) = nav_link item ∷ nav_links items

abbrev pub footer : Text → SidebarUser → List (Node Event)
footer avatar user =
    div (
      div (text avatar ∷ [])
      ∷ div (div (text user.label ∷ []) ∷ div (text user.role ∷ []) ∷ [])
      ∷ [])
    ∷ element (codes "button")
        (record (handler signs_out) { attributes = (codes "title", codes "Sign out") ∷ [] })
        (nodes (icon ∷ text (codes "Sign out") ∷ []))
    ∷ []

abbrev pub sidebar_parts : AuthState → Text → List (Node Event)
sidebar_parts s avatar =
    div (icon ∷ said (codes "span") (codes "SystemScale") ∷ [])
    ∷ tag (codes "ul") (nav_links (nav_shown s))
    ∷ div (footer avatar (sidebar_user s))
    ∷ []

-- `NavSidebar`, given `toUpperCase`; `none` where `getInitials` throws.
unfoldable pub nav_sidebar : (Text → Text) → AuthState → Option (Node Event)
unfolding sidebar_user
nav_sidebar to_upper s = elim (sidebar_user s).avatar [
  | none ↦ none
  | some initials ↦ some (tag (codes "nav") (sidebar_parts s (to_upper initials)))
]

-- The label of `WsIndicator`.
unfoldable pub ws_label : WsStatus → Text
ws_label connected = codes "Live"
ws_label connecting = codes "Connecting…"
ws_label disconnected = codes "Disconnected"

unfoldable pub ws_indicator : WsStatus → Node Event
unfolding ws_label
ws_indicator status =
    element (codes "div")
      (record plain { attributes = (codes "title", codes "WebSocket: " ++ ws_label status) ∷ [] })
      (nodes (tag (codes "span") [] ∷ said (codes "span") (ws_label status) ∷ []))

-- `TopBar`, given the path of the address; `none` where `decodeURIComponent` throws.
unfoldable pub top_bar : (Text → Option Text) → Text → WsStatus → Option (Node Event)
unfolding page_title
top_bar decode pathname status = elim (page_title decode pathname) [
  | none ↦ none
  | some title ↦ some (tag (codes "header") (said (codes "span") title ∷ ws_indicator status ∷ []))
]

-- The layout of `AuthGuard`; the page of the route, in `main`, is rendered by its own module.
abbrev pub layout : Node Event → Node Event → Node Event
layout sidebar bar = div (sidebar ∷ div (bar ∷ tag (codes "main") [] ∷ []) ∷ [])

abbrev pub in_layout : Option (Node Event) → Option (Node Event) → Option (Node Event)
in_layout (some sidebar) (some bar) = some (layout sidebar bar)
in_layout _ _ = none

abbrev pub waiting : Node Event
waiting = div (tag (codes "span") [] ∷ [])

-- What is rendered for a view, with the status that the light has; a redirect renders nothing.
unfoldable pub screen :
    (Text → Text) → (Text → Option Text) → Text → WsStatus → AuthState → View → Option (Node Event)
screen to_upper decode pathname status s spinner = some waiting
screen to_upper decode pathname status s (goes_to r) = some (div [])
screen to_upper decode pathname status s (page login) = some login_page
screen to_upper decode pathname status s (page callback) = some (div (div [] ∷ []))
screen to_upper decode pathname status s (page unknown) = some (div [])
screen to_upper decode pathname status s (page r) =
    in_layout (nav_sidebar to_upper s) (top_bar decode pathname status)
