-- ===== src/Project/Pending/Stale.antt =====
-- An answer for a project that the page has left.
use ops_sys.Base.{false, Option, some, List, [], ◌∷◌, get_or, ◌≡◌, refl}
use ops_sys.Base.Text.{Text, is_blank}
use ops_sys.Fleet.{Vehicle}
use ops_sys.Server.{answered, failed}
use ops_sys.Calls.{answer}
use ops_sys.Project.{load_failed, error_view, view}
use ops_sys.Project.Pending.{
  lists, Live, navigate, listed, respond, receive, Event, goes, receives, after, run,
}

-- From one project to another, with the answer for the second before the one for the first.
abbrev pub overtaken : Text → Text → List Event
overtaken a b = goes (some a) ∷ goes (some b) ∷ []

-- If the page goes to a project and at once to another one, whose devices come first, then the late
-- answer for the first project stands on the page of the second: its devices, or its failure in
-- place of the devices that came.
pub run-overtaken :
    (a b m : Text) (da db : Option (List Vehicle)) (s : Live)
    → is_blank a ≡ false
    → is_blank b ≡ false
    → let t = after (run s (overtaken a b)) (receives 0 (lists (answered db))) in
      let late = after t (receives 0 (lists (answered da))) in
      let failing = after t (receives 0 (lists (failed m))) in
      (t.front.page.devices ≡ get_or [] db)
      × (late.front.page.name ≡ some b)
      × (late.front.page.devices ≡ get_or [] da)
      × (failing.front.page.name ≡ some b)
      × (view failing.front.page ≡ error_view load_failed)
      × (failing.front.page.devices ≡ [])
unfolding after navigate receive answer respond listed view
run-overtaken a b m da db s ga gb = rw (ga, gb) (refl, refl, refl, refl, refl, refl)
