-- ===== src/App/Invariant/Page.antt =====
-- The page of a project, mounted, changed and unmounted.
use ops_sys.Base.{ℕ, ◌≡◌, refl, ap, ◌∙◌, Option, none, some, List, [], ◌∷◌, arith}
use ops_sys.Base.Text.{Text}
use ops_sys.Base.Sets.{is_one}
use ops_sys.Fleet.{Vehicle}
use ops_sys.Ws.{World}
use ops_sys.Ws.Steps
use ops_sys.Ws.Steps.{Reach, here, next, listens, leaves, stores_change}
use ops_sys.Project.{ids_of}
use ops_sys.App.Browser.{BrowserEvent, happens}
use ops_sys.Project.Watch.{
  Watch, set_devices, start, clean_up, request_frame, animation_frame, call, callback,
}
use ops_sys.Project.Watch.Invariant.{
  awaited, set_devices-IsWatching, called, clean_up-quiet, devices-tick,
}
use ops_sys.App.{show_project}
use ops_sys.App.Manager.{
  Keeps, mount-Keeps, unmount-Keeps, mount-Reach, unmount-Reach, happens-Happened,
}
use ops_sys.App.Invariant.{IsUsed, IsShown}

module _ (gateway_url : Text) (t : Option Text) (l : Option ℕ) where
  kept-IsUsed :
      {w u : World}
      → Keeps w u
      → Reach (Steps.initial gateway_url) u
      → IsUsed gateway_url t l w
      → IsUsed gateway_url t l u
  kept-IsUsed k r h = record {
    reached = r;
    token_read = k.token ∙ h.token_read;
    heard = k.listeners ∙ h.heard;
  }

  clean_up-IsUsed :
      (ds : List Vehicle) (s : Watch)
      → IsUsed gateway_url t l s.world
      → IsUsed gateway_url t l (clean_up ds s).world
  unfolding clean_up
  clean_up-IsUsed [] s h = h
  clean_up-IsUsed (d ∷ ds) s h =
      kept-IsUsed (unmount-Keeps (d ∷ ds) s.world) (unmount-Reach (d ∷ ds) h.reached) h

  start-IsUsed :
      (ds : List Vehicle) (s : Watch)
      → IsUsed gateway_url t l s.world
      → IsUsed gateway_url t l (start ds s).world
  unfolding start request_frame
  start-IsUsed [] s h = h
  start-IsUsed (d ∷ ds) s h =
      kept-IsUsed (mount-Keeps (d ∷ ds) s.world) (mount-Reach (d ∷ ds) h.reached) h

  pub set_devices-IsUsed :
      (ds : List Vehicle) (s : Watch)
      → IsUsed gateway_url t l s.world
      → IsUsed gateway_url t l (set_devices ds s).world
  unfolding set_devices
  set_devices-IsUsed ds s h = start-IsUsed ds _ (clean_up-IsUsed s.page.devices s h)

  pub animation_frame-IsUsed :
      (k : ℕ) (s : Watch)
      → IsUsed gateway_url t l s.world
      → IsUsed gateway_url t l (animation_frame k s).world
  unfolding animation_frame call request_frame
  animation_frame-IsUsed k s h = go (callback k s.requested)
    where
      go : (o : Option (List Text)) → IsUsed gateway_url t l (call o k s).world
      go none = h
      go (some ids) = h

  pub show_project-IsUsed :
      (old new : Option Text) (s : Watch)
      → IsUsed gateway_url t l s.world
      → IsUsed gateway_url t l (show_project old new s).world
  unfolding show_project
  show_project-IsUsed none none s h = h
  show_project-IsUsed none (some n) s h = h
  show_project-IsUsed (some m) (some n) s h = h
  show_project-IsUsed (some m) none s h = clean_up-IsUsed s.page.devices s h

  pub happens-IsUsed :
      (e : BrowserEvent) (w : World)
      → IsUsed gateway_url t l w
      → IsUsed gateway_url t l (happens e w)
  happens-IsUsed e w h =
      let p = happens-Happened e w in kept-IsUsed p.leaves.keeps (p.reached h.reached) h

devices-frame : (k : ℕ) (s : Watch) → (animation_frame k s).page.devices ≡ s.page.devices
unfolding animation_frame call request_frame
devices-frame k s = go (callback k s.requested)
  where
    go : (o : Option (List Text)) → (call o k s).page.devices ≡ s.page.devices
    go none = refl
    go (some ids) = devices-tick ids s.world.telemetry s.page

pub show_project-IsShown :
    (old new : Option Text) (s : Watch) → IsShown old s → IsShown new (show_project old new s)
unfolding show_project
show_project-IsShown none none s h = h
show_project-IsShown none (some n) s h = record {
  watching = record {
    subscribed = λ v. h.watching.subscribed v ∙ ap (λ ds. is_one v (ids_of ds)) (h.gone refl);
    pending = h.watching.pending ∙ ap (awaited s.raf) (h.gone refl);
  };
  gone = λ e. refl;
}
show_project-IsShown (some m) (some n) s h = record {
  watching = record { subscribed = h.watching.subscribed; pending = h.watching.pending };
  gone = λ e. ground (arith, e);
}
show_project-IsShown (some m) none s h =
    let (sub, req) = clean_up-quiet s.page.devices s h.watching.subscribed h.watching.pending in
    record { watching = record { subscribed = sub; pending = req }; gone = λ e. refl }

pub set_devices-IsShown :
    (n : Text) (ds : List Vehicle) (s : Watch)
    → IsShown (some n) s
    → IsShown (some n) (set_devices ds s)
set_devices-IsShown n ds s h = record {
  watching = set_devices-IsWatching ds s h.watching;
  gone = λ e. ground (arith, e);
}

pub animation_frame-IsShown :
    (name : Option Text) (k : ℕ) (s : Watch) → IsShown name s → IsShown name (animation_frame k s)
animation_frame-IsShown name k s h = record {
  watching = called k s.page.devices s refl h.watching;
  gone = λ e. devices-frame k s ∙ h.gone e;
}
