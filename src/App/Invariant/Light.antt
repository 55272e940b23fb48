-- ===== src/App/Invariant/Light.antt =====
-- The effect of the status light: one listener while the top bar is rendered, and none else.
use ops_sys.Base.{
  ℕ, suc, Bool, true, false, ◌≡◌, refl, ap, ◌∙◌, subst, Option, none, some, [], ◌∷◌, arith,
}
use ops_sys.Base.Text.{Text}
use ops_sys.Base.Sets.{has}
use ops_sys.Ws.{World, on_status_change, off_status_change, add_listener, delete_listener}
use ops_sys.Ws.Steps.{next, listens, leaves}
use ops_sys.Project.Watch.{Watch}
use ops_sys.App.{App, project_of, with_world, light_on, light_off, show_light}
use ops_sys.App.Invariant.{is_lit, IsUsed, IsShown}

module _ (gateway_url : Text) where
  listens-IsUsed :
      (t : Option Text) (n : ℕ) (w : World)
      → IsUsed gateway_url t none w
      → IsUsed gateway_url t (some n) (on_status_change n w)
  unfolding on_status_change add_listener
  listens-IsUsed t n w h = record {
    reached = next h.reached (listens n);
    token_read = h.token_read;
    heard = ap (add_listener n) h.heard;
  }

  delete_only : (n : ℕ) → delete_listener n (n ∷ []) ≡ []
  unfolding delete_listener
  delete_only n = ground arith

  leaves-IsUsed :
      (t : Option Text) (n : ℕ) (w : World)
      → IsUsed gateway_url t (some n) w
      → IsUsed gateway_url t none (off_status_change n w)
  unfolding off_status_change
  leaves-IsUsed t n w h = record {
    reached = next h.reached (leaves n);
    token_read = h.token_read;
    heard = ap (delete_listener n) h.heard ∙ delete_only n;
  }

  -- The pages and the session, before the effects of the top bar and after them.
  pub record IsLit (a : App) (b : Bool) (a' : App) : Type 0 where
    pub auth : a'.auth ≡ a.auth
    pub used : IsUsed gateway_url a.auth.token a'.light a'.watch.world
    pub shown : IsShown (project_of a.view) a'.watch
    pub lit : is_lit a'.light ≡ b

  pub world_change :
      (name : Option Text) (s : Watch) (w : World)
      → w.subscribed_ids ≡ s.world.subscribed_ids
      → IsShown name s
      → IsShown name (record s { world = w })
  world_change name s w e h = record {
    watching = record {
      subscribed = λ v. ap (has v) e ∙ h.watching.subscribed v;
      pending = h.watching.pending;
    };
    gone = h.gone;
  }

  light_on-IsLit :
      (a : App)
      → IsUsed gateway_url a.auth.token a.light a.watch.world
      → IsShown (project_of a.view) a.watch
      → IsLit a true (light_on a)
  unfolding light_on
  light_on-IsLit a u h = go a.light refl
    where
      go :
          (o : Option ℕ)
          → a.light ≡ o
          → IsLit a true (elim o [
            | some fn ↦ a
            | none ↦
                with_world
                  (on_status_change a.next_light a.watch.world)
                  (record a { light = some a.next_light; next_light = suc a.next_light })
          ])
      go (some fn) e = record { auth = refl; used = u; shown = h; lit = ap is_lit e }
      go none e = record {
        auth = refl;
        used =
            listens-IsUsed a.auth.token a.next_light a.watch.world
              (subst (λ l. IsUsed gateway_url a.auth.token l a.watch.world) e u);
        shown = world_change _ a.watch _ (unfold on_status_change in refl) h;
        lit = refl;
      }

  light_off-IsLit :
      (a : App)
      → IsUsed gateway_url a.auth.token a.light a.watch.world
      → IsShown (project_of a.view) a.watch
      → IsLit a false (light_off a)
  unfolding light_off
  light_off-IsLit a u h = go a.light refl
    where
      go :
          (o : Option ℕ)
          → a.light ≡ o
          → IsLit a false (elim o [
            | none ↦ a
            | some fn ↦ with_world (off_status_change fn a.watch.world) (record a { light = none })
          ])
      go none e = record { auth = refl; used = u; shown = h; lit = ap is_lit e }
      go (some fn) e = record {
        auth = refl;
        used =
            leaves-IsUsed a.auth.token fn a.watch.world
              (subst (λ l. IsUsed gateway_url a.auth.token l a.watch.world) e u);
        shown = world_change _ a.watch _ (unfold off_status_change in refl) h;
        lit = refl;
      }

  pub show_light-IsLit :
      (b : Bool) (a : App)
      → IsUsed gateway_url a.auth.token a.light a.watch.world
      → IsShown (project_of a.view) a.watch
      → IsLit a b (show_light b a)
  unfolding show_light
  show_light-IsLit true a u h = light_on-IsLit a u h
  show_light-IsLit false a u h = light_off-IsLit a u h
