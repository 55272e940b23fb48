-- ===== src/Project/Form.antt =====
-- What the page shows after its requests, and the form for a new device.
use ops_sys.Base.{true, false, ◌≡◌, refl, Option, none, some, List, [], ◌∷◌, arith, get_or}
use ops_sys.Base.Text.{Text, trim, is_blank, or_undefined}
use ops_sys.Fleet.{Vehicle, ProvisionResponse}
use ops_sys.Http.{Request}
use ops_sys.Http.Requests.{list_project_devices, provision_device}
use ops_sys.Server.{Answer, answered, failed}
use ops_sys.Project.{
  Page, load_failed, load_devices, retry, handle_add_device, View, error_view, panel, view,
}

-- The devices of an answer.
abbrev pub devices_in : Answer (Option (List Vehicle)) → List Vehicle
devices_in (answered d) = get_or [] d
devices_in (failed _) = []

-- What an answer to the list of devices shows.
abbrev pub shown_after : Answer (Option (List Vehicle)) → View
shown_after (answered _) = panel
shown_after (failed _) = error_view load_failed

-- On the page of a project with a name, `Retry` asks for its devices once, and ends with the panel
-- and the devices of the answer, or with the message and no device, whatever was shown before.
pub view-retry :
    (answer : Answer (Option (List Vehicle))) (n : Text) (p : Page)
    → p.name ≡ some n
    → is_blank n ≡ false
    → let (p', reqs) = retry answer p in
      (view p' ≡ shown_after answer)
      × (p'.devices ≡ devices_in answer)
      × (reqs ≡ list_project_devices n ∷ [])
unfolding retry load_devices view
view-retry (answered d) n p named given = rw (named, given) (refl, refl, refl)
view-retry (failed m) n p named given = rw (named, given) (refl, refl, refl)

-- The request of the form.
abbrev pub provision : Text → Page → Request
provision n p = provision_device n (record {
  display_name = trim p.dev_name;
  vehicle_type = or_undefined (trim p.dev_type);
  adapter_type = none;
  region = or_undefined (trim p.dev_region);
})

-- The form is closed and empty.
abbrev pub IsClosed : Page → Type 0
IsClosed p = (p.show_add ≡ false) × (p.dev_name ≡ []) × (p.dev_type ≡ []) × (p.dev_region ≡ [])

panel_error : (p : Page) → view p ≡ panel → is_blank p.error ≡ true
unfolding view
panel_error p h = ground arith

-- On a page that shows its panel, with a name for the device that is not blank, `Add Device` asks for
-- the device first. If that fails, the form stays as it is and nothing more is asked for. If it
-- succeeds, the form is closed and emptied, and the devices are asked for and shown as after `Retry`.
-- The button waits for nothing any more in both cases.
pub handle_add_device_lem :
    (response : ProvisionResponse) (message : Text) (listed : Answer (Option (List Vehicle)))
    (n : Text) (p : Page)
    → p.name ≡ some n
    → is_blank n ≡ false
    → view p ≡ panel
    → is_blank (trim p.dev_name) ≡ false
    → (handle_add_device (failed message) listed p
        ≡ (record p { adding = false }, provision n p ∷ []))
      × (let (p', reqs) = handle_add_device (answered response) listed p in
          IsClosed p'
          × (view p' ≡ shown_after listed)
          × (p'.devices ≡ devices_in listed)
          × (p'.adding ≡ false)
          × (reqs ≡ provision n p ∷ list_project_devices n ∷ []))
unfolding handle_add_device load_devices view
handle_add_device_lem response message (answered d) n p named given shown full =
    rw (named, given, full)
      (refl, ((refl, refl, refl, refl), rw (panel_error p shown) refl, refl, refl, refl))
handle_add_device_lem response message (failed m) n p named given shown full =
    rw (named, given, full) (refl, ((refl, refl, refl, refl), refl, refl, refl, refl))
