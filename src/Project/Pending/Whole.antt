-- ===== src/Project/Pending/Whole.antt =====
-- The handler of the form cut at its awaits, and in one piece.
use ops_sys.Base.{true, false, ◌++◌, Option, some, List, [], ◌∷◌, ◌≡◌, refl}
use mathlib.Core.List.{append_assoc}
use ops_sys.Fleet.{Vehicle, ProvisionResponse}
use ops_sys.Base.Text.{Text, trim, is_blank}
use ops_sys.Server.{Answer, answered, failed}
use ops_sys.Calls.{answer}
use ops_sys.Project.{handle_add_device, load_devices}
use ops_sys.Project.Pending.{
  lists, provisions, Live, listed, respond, receive, begin_add, form_shown, press_add, adds,
  receives, after, run,
}

-- The button, with the answers before anything else happens, does what `handle_add_device` describes
-- in one piece, and sends the same requests.
pub run-handle_add_device :
    (response : ProvisionResponse) (m : Text) (l : Answer (Option (List Vehicle))) (n : Text)
    (s : Live)
    → form_shown s.front.page ≡ true
    → s.front.page.adding ≡ false
    → s.front.page.name ≡ some n
    → is_blank n ≡ false
    → is_blank (trim s.front.page.dev_name) ≡ false
    → (let t =
          run s (adds ∷ receives 0 (provisions (answered response)) ∷ receives 0 (lists l) ∷ []) in
        let once = handle_add_device (answered response) l s.front.page in
        (t.front.page ≡ once.0) × (t.front.requests ≡ s.front.requests ++ once.1))
      × (let t = run s (adds ∷ receives 0 (provisions (failed m)) ∷ []) in
          let once = handle_add_device (failed m) l s.front.page in
          (t.front.page ≡ once.0) × (t.front.requests ≡ s.front.requests ++ once.1))
unfolding after press_add begin_add receive answer respond listed handle_add_device load_devices
run-handle_add_device response m (answered d) n s shows idle named given full =
    rw (shows, idle, named, given, full, append_assoc) ((refl, refl), (refl, refl))
run-handle_add_device response m (failed e) n s shows idle named given full =
    rw (shows, idle, named, given, full, append_assoc) ((refl, refl), (refl, refl))
