-- ===== src/App/Screen/Labels.antt =====
-- What is written on the links and buttons around the pages, and what each of them does.
use ops_sys.Base.{
  ◌≡◌, refl, Option, none, some, List, [], ◌∷◌, ◌++◌, if◌then◌else◌, Bool-cases, inl, inr, ap,
}
use ops_sys.Base.Text.{Text, codes}
use ops_sys.Auth.{AuthState, is_admin}
use ops_sys.Auth.Session.{logs_in, signs_up}
use ops_sys.Ws.{WsStatus}
use ops_sys.Markup.{said, Node, tag, clickable, written}
use ops_sys.Shell.{
  Route, home, team, api_keys, callback, unknown, project, View, spinner, page, goes_to, nav_shown,
  sidebar_user, page_title,
}
use ops_sys.App.{inside, Event, session, signs_out, goes}
use ops_sys.App.Screen.{
  nav_links, sidebar_parts, nav_sidebar, ws_indicator, top_bar, in_layout, screen,
}

-- The sidebar, for an administrator and for anybody else.
abbrev pub sidebar_labels : AuthState → List (Text × Event)
sidebar_labels s =
    (codes "Projects", goes home)
      ∷ (if is_admin s
          then (codes "Team", goes team) ∷ (codes "API Keys", goes api_keys) ∷ []
          else [])
    ++ (codes "Sign out", signs_out) ∷ []

abbrev pub labels_of : AuthState → View → List (Text × Event)
labels_of s (page Route.login) =
    (codes "Sign in with Email", session logs_in)
    ∷ (codes "Create an account", session signs_up)
    ∷ []
labels_of s v = if inside v then sidebar_labels s else []

abbrev pub Labelled : Option (Node Event) → List (Text × Event) → Type 0
Labelled none ls = Unit
Labelled (some n) ls = clickable n ≡ ls

sidebar-labels :
    (s : AuthState) (avatar : Text)
    → clickable (tag (codes "nav") (sidebar_parts s avatar)) ≡ sidebar_labels s
unfolding clickable written nav_shown nav_links
sidebar-labels s avatar = elim (Bool-cases (is_admin s)) [ inl e ↦ rw e refl | inr e ↦ rw e refl ]

nav_sidebar-Labelled :
    (to_upper : Text → Text) (s : AuthState) → Labelled (nav_sidebar to_upper s) (sidebar_labels s)
unfolding nav_sidebar
nav_sidebar-Labelled to_upper s = with_avatar (sidebar_user s).avatar
  where
    with_avatar :
        (o : Option Text)
        → Labelled
            (elim o as (λ x. Option (Node Event)) [
              | none ↦ none
              | some initials ↦ some (tag (codes "nav") (sidebar_parts s (to_upper initials)))
            ])
            (sidebar_labels s)
    with_avatar none = tt
    with_avatar (some initials) = sidebar-labels s (to_upper initials)

top_bar-Labelled :
    (decode : Text → Option Text) (pathname : Text) (status : WsStatus)
    → Labelled (top_bar decode pathname status) []
unfolding top_bar
top_bar-Labelled decode pathname status = titled (page_title decode pathname)
  where
    titled :
        (o : Option Text)
        → Labelled
            (elim o as (λ x. Option (Node Event)) [
              | none ↦ none
              | some title ↦
                  some (tag (codes "header") (said (codes "span") title ∷ ws_indicator status ∷ []))
            ])
            []
    titled none = tt
    titled (some title) = unfold clickable in unfold ws_indicator in refl

append_nil : (ls : List (Text × Event)) → ls ++ [] ≡ ls
append_nil [] = refl
append_nil (l ∷ ls) = ap (λ ms. l ∷ ms) (append_nil ls)

in_layout-Labelled :
    (ls : List (Text × Event)) (m n : Option (Node Event))
    → Labelled m ls
    → Labelled n []
    → Labelled (in_layout m n) ls
unfolding clickable
in_layout-Labelled ls (some m) (some n) h k = rw (h, k) (append_nil ls)
in_layout-Labelled ls none n h k = tt
in_layout-Labelled ls (some m) none h k = tt

module _ (to_upper : Text → Text) (decode : Text → Option Text) (pathname : Text)
    (status : WsStatus) (s : AuthState) where
  around_page :
      Labelled
        (in_layout (nav_sidebar to_upper s) (top_bar decode pathname status))
        (sidebar_labels s)
  around_page =
      in_layout-Labelled (sidebar_labels s) (nav_sidebar to_upper s)
        (top_bar decode pathname status) (nav_sidebar-Labelled to_upper s)
        (top_bar-Labelled decode pathname status)

  pub screen-Labelled :
      (v : View) → Labelled (screen to_upper decode pathname status s v) (labels_of s v)
  unfolding screen clickable written
  screen-Labelled spinner = refl
  screen-Labelled (goes_to r) = refl
  screen-Labelled (page Route.login) = refl
  screen-Labelled (page callback) = refl
  screen-Labelled (page home) = around_page
  screen-Labelled (page team) = around_page
  screen-Labelled (page api_keys) = around_page
  screen-Labelled (page (project name)) = around_page
  screen-Labelled (page unknown) = refl
