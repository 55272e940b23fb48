-- ===== src/Home/Pending/Whole.antt =====
-- The handler of the form cut at its awaits, and in one piece.
use ops_sys.Base.{ℕ, suc, true, false, List, [], ◌∷◌, ◌≡◌, refl, arith, ltb}
use ops_sys.Base.Text.{Text, trim, is_blank}
use ops_sys.Fleet.{Project}
use ops_sys.Server.{Answer, answered, failed}
use ops_sys.Home.{Sessions, handle_create, Devices}
use ops_sys.Home.Pending.{
  Live, begin_create, form_shown, press_create, creation_answer, reload_answer, Event, creates,
  reload, after, run,
}

counted : (n : ℕ) → ltb 0 (suc n) ≡ true
counted n = ground arith

-- The button, with the answers before anything else happens, does what `handle_create` describes in
-- one piece.
pub run-handle_create :
    (created : Project) (m : Text) (listed : Answer (List Project)) (list_devices : Devices)
    (a : Sessions) (s : Live)
    → form_shown s.page ≡ true
    → s.page.creating ≡ false
    → is_blank (trim s.page.new_name) ≡ false
    → ((run s
          (creates ∷ Event.creation (answered created) ∷ reload listed list_devices a ∷ [])).page
        ≡ (handle_create (answered created) listed list_devices a s.page).0)
      × ((run s (creates ∷ Event.creation (failed m) ∷ [])).page
          ≡ (handle_create (failed m) listed list_devices a s.page).0)
unfolding after press_create begin_create creation_answer reload_answer handle_create
run-handle_create created m listed list_devices a s shows idle full =
    rw (shows, idle, full, counted s.creations, counted s.reloads) (refl, refl)
