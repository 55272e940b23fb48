-- ===== src/App/Addresses.antt =====
-- Which address the sockets get that an event of the dashboard makes.
use ops_sys.Base.{
  ℕ, Bool, false, ◌≡◌, ◌≤◌, ◌<◌, refl, sym, ◌∙◌, subst, Option, none, some, List, [], ◌∷◌, ◌++◌,
  ◌&&◌, arith, ltb, leb, dec_lt, get_or, if◌then◌else◌,
}
use ops_sys.Base.Text.{Text, codes}
use ops_sys.Fleet.{Vehicle}
use ops_sys.Auth.{AuthState, load_existing}
use ops_sys.Auth.Session
use ops_sys.Http.{after_response}
use ops_sys.Ws.{World, on_status_change, off_status_change}
use ops_sys.Shell.{Route, sign_out, auth_callback}
use ops_sys.Project.Watch.{
  Watch, set_devices, start, clean_up, request_frame, call, animation_frame,
}
use ops_sys.App.{
  App, Place, inside, project_of, light_on, light_off, show_light, show_project, show, reading,
  commit, at_route, Event, session, response, signs_out, calls_back, goes, checks, sets, frame,
  connection, checked, after,
}
use ops_sys.App.Settle.{ends}
use ops_sys.App.Standing.{commit-ends, commit-auth}
use ops_sys.App.Urls.{Makes, Same, none_made, composed, unchanged, mount-Makes, unmount-Makes}
use ops_sys.App.Urls.Happens.{happens-Makes}

-- The address of a socket: its own, or that of a new one with this token.
abbrev pub address : Text → Option Text → Text
address gateway_url token = gateway_url ++ (codes "/ws?token=" ++ get_or [] token)

pub record Dials (token : Option Text) (w u : World) : Type 0 where
  pub gateway : u.gateway_url ≡ w.gateway_url
  pub urls :
      (i : ℕ)
      → (u.sockets i).url ≡ (
          if leb w.next_socket i && ltb i u.next_socket
          then address w.gateway_url token
          else (w.sockets i).url)

url_cases :
    (n m i : ℕ) (t new old : Text)
    → (i < n → t ≡ old)
    → (n ≤ i → i < m → t ≡ new)
    → (m ≤ i → t ≡ old)
    → t ≡ (if leb n i && ltb i m then new else old)
url_cases n m i t new old h k l =
    elim (dec_lt i n) as (λ _. t ≡ (if leb n i && ltb i m then new else old)) [
      | yes p ↦ h p ∙ ground (arith, p)
      | no p ↦ elim (dec_lt i m) as (λ _. t ≡ (if leb n i && ltb i m then new else old)) [
        | yes q ↦ k (omega (arith, p)) q ∙ ground (arith, p, q)
        | no q ↦ l (omega (arith, q)) ∙ ground (arith, p, q)
      ]
    ]

pub Makes-Dials :
    (token : Option Text) (w u : World) → Makes (record w { token = token }) u → Dials token w u
Makes-Dials token w u h = record {
  gateway = h.gateway;
  urls = λ i.
      url_cases w.next_socket u.next_socket i (u.sockets i).url (address w.gateway_url token)
        (w.sockets i).url (h.old i) (h.made i) (h.beyond i);
}

show_light-Same : (b : Bool) (a : App) → Same a.watch.world (show_light b a).watch.world
unfolding show_light light_on light_off on_status_change off_status_change
show_light-Same b a = record {
  token = ground arith;
  gateway = ground arith;
  next = ground arith;
  urls = λ i. ground arith;
}

start-Makes : (ds : List Vehicle) (s : Watch) → Makes s.world (start ds s).world
unfolding start request_frame
start-Makes [] s = none_made (unchanged s.world)
start-Makes (d ∷ ds) s = mount-Makes (d ∷ ds) s.world

clean_up-Makes : (ds : List Vehicle) (s : Watch) → Makes s.world (clean_up ds s).world
unfolding clean_up
clean_up-Makes [] s = none_made (unchanged s.world)
clean_up-Makes (d ∷ ds) s = unmount-Makes (d ∷ ds) s.world

set_devices-Makes : (ds : List Vehicle) (s : Watch) → Makes s.world (set_devices ds s).world
unfolding set_devices
set_devices-Makes ds s = composed (clean_up-Makes s.page.devices s) (start-Makes ds _)

show_project-Makes : (m n : Option Text) (s : Watch) → Makes s.world (show_project m n s).world
unfolding show_project
show_project-Makes none none s = none_made (unchanged s.world)
show_project-Makes none (some n) s = none_made (unchanged s.world)
show_project-Makes (some m) (some n) s = none_made (unchanged s.world)
show_project-Makes (some m) none s = clean_up-Makes s.page.devices s

show-Makes : (p : Place) (a : App) → Makes a.watch.world (show p a).watch.world
unfolding show
show-Makes p a = composed (none_made (show_light-Same (inside p.view) a)) (
    show_project-Makes (project_of a.view) (project_of p.view) (show_light (inside p.view) a).watch)

pub commit-Dials : (a : App) → Dials a.auth.token a.watch.world (commit a).watch.world
commit-Dials a =
    subst (λ (b : App). Dials a.auth.token a.watch.world b.watch.world) (sym (commit-ends a))
      (Makes-Dials a.auth.token a.watch.world _
        (show-Makes (ends a.guard a.auth a.route) (reading a)))

committed : (a : App) → Dials (commit a).auth.token a.watch.world (commit a).watch.world
committed a =
    subst (λ (s : AuthState). Dials s.token a.watch.world (commit a).watch.world)
      (sym (commit-auth a)) (commit-Dials a)

placed :
    (s : AuthState) (g : Option Bool) (o : Option Route) (a : App)
    → (let b = commit (at_route o (record a { auth = s; guard = g })) in
        Dials b.auth.token a.watch.world b.watch.world)
placed s g none a = committed (record a { auth = s; guard = g })
placed s g (some r) a = committed (record a { auth = s; guard = g; route = r })

still : {w u : World} (token : Option Text) → u ≡ w → Dials token w u
still {w} {u} token e =
    subst (Dials token w) (sym e) (record { gateway = refl; urls = λ i. ground arith })

frame-world : (h : ℕ) (s : Watch) → (animation_frame h s).world ≡ s.world
unfolding animation_frame call request_frame
frame-world h s = ground arith

sets-Dials :
    (ds : List Vehicle) (a : App) (o : Option Text)
    → (let b : App = elim o as (λ _. App) [
      | none ↦ a
      | some n ↦ record a { watch = set_devices ds (reading a).watch }
    ] in
        Dials b.auth.token a.watch.world b.watch.world)
sets-Dials ds a none = still a.auth.token refl
sets-Dials ds a (some n) =
    Makes-Dials a.auth.token a.watch.world _ (set_devices-Makes ds (reading a).watch)

pub after-Dials :
    (a : App) (e : Event) → Dials (after a e).auth.token a.watch.world (after a e).watch.world
unfolding after
after-Dials a (session e) = placed (Session.step a.auth e) a.guard none a
after-Dials a (response status) = placed (after_response status a.auth) a.guard none a
after-Dials a signs_out = placed (sign_out a.auth).0 a.guard (sign_out a.auth).1 a
after-Dials a (calls_back result) =
    placed (auth_callback false result a.auth).0 a.guard (auth_callback false result a.auth).1 a
after-Dials a (goes r) = committed (record a { route = r })
after-Dials a (checks r) = placed (load_existing r a.auth) (checked a.guard) none a
after-Dials a (sets ds) = sets-Dials ds a (project_of a.view)
after-Dials a (frame h) = still a.auth.token (frame-world h a.watch)
after-Dials a (connection e) =
    Makes-Dials a.auth.token a.watch.world _ (happens-Makes e (reading a).watch.world)
