-- ===== src/Project/Devices.antt =====
-- The devices of the page: their subscriptions, labels and alerts, and the form for a new one.

use ops_sys.Base.{
  Bool, true, false, ◌≡◌, refl, ap, ◌∙◌, ◌&&◌, ◌||◌, not, List, [], ◌∷◌, arith, if◌then◌else◌,
  Option, none, some, get_or, take,
}
use ops_sys.Base.Text.{Text, text_eq}
use ops_sys.Base.Sets.{has, is_one}
use ops_sys.Base.Maps.{lookup, insert, lookup-insert}
use ops_sys.Fleet.{Vehicle}
use ops_sys.Ws.{World}
use ops_sys.Ws.Ids.{Call, subscribes, unsubscribes, run, decided, has-run}
use ops_sys.Project.{ids_of, name_map, device_label}

-- The effect on `devices` and the function that it returns, as calls of the manager.
abbrev pub mount_calls : List Text → List Call
mount_calls [] = []
mount_calls (id ∷ ids) = subscribes id ∷ mount_calls ids

abbrev pub unmount_calls : List Text → List Call
unmount_calls [] = []
unmount_calls (id ∷ ids) = unsubscribes id ∷ unmount_calls ids

unfoldable pub mount : List Vehicle → World → World
mount devices w = run w (mount_calls (ids_of devices))

unfoldable pub unmount : List Vehicle → World → World
unmount devices w = run w (unmount_calls (ids_of devices))

decided-mount :
    (v : Text) (b : Bool) (ids : List Text) → decided v b (mount_calls ids) ≡ (is_one v ids || b)
decided-mount v b [] = refl
decided-mount v b (id ∷ ids) = decided-mount v (if text_eq id v then true else b) ids ∙ ground arith

decided-unmount :
    (v : Text) (b : Bool) (ids : List Text)
    → decided v b (unmount_calls ids) ≡ (not (is_one v ids) && b)
decided-unmount v b [] = refl
decided-unmount v b (id ∷ ids) =
    decided-unmount v (if text_eq id v then false else b) ids ∙ ground arith

mounted :
    (devices : List Vehicle) (w : World) (v : Text)
    → has v (mount devices w).subscribed_ids ≡ (is_one v (ids_of devices) || has v w.subscribed_ids)
unfolding mount
mounted devices w v =
    has-run w (mount_calls (ids_of devices)) v
    ∙ decided-mount v (has v w.subscribed_ids) (ids_of devices)

pub has-unmount :
    (devices : List Vehicle) (w : World) (v : Text)
    → has v (unmount devices w).subscribed_ids
      ≡ (not (is_one v (ids_of devices)) && has v w.subscribed_ids)
unfolding unmount
has-unmount devices w v =
    has-run w (unmount_calls (ids_of devices)) v
    ∙ decided-unmount v (has v w.subscribed_ids) (ids_of devices)

-- Whatever was subscribed before, while the page is mounted exactly its devices are subscribed
-- besides; once it is gone none of its devices is, those that were subscribed before included, and
-- all else is as before.
pub has-mount :
    (devices : List Vehicle) (w : World) (v : Text)
    → (has v (mount devices w).subscribed_ids
        ≡ (is_one v (ids_of devices) || has v w.subscribed_ids))
      × (has v (unmount devices (mount devices w)).subscribed_ids
          ≡ (not (is_one v (ids_of devices)) && has v w.subscribed_ids))
has-mount devices w v = (
  mounted devices w v,
  has-unmount devices (mount devices w) v ∙ ground (arith, mounted devices w v),
)

-- The last device with that id names it.
abbrev pub last_name : Text → Option Text → List Vehicle → Option Text
last_name id found [] = found
last_name id found (d ∷ ds) =
    last_name id (if text_eq d.id id then some d.display_name else found) ds

lookup-name_map :
    (id : Text) (m : List (Text × Text)) (ds : List Vehicle)
    → lookup id (name_map m ds) ≡ last_name id (lookup id m) ds
unfolding name_map
lookup-name_map id m [] = refl
lookup-name_map id m (d ∷ ds) =
    lookup-name_map id (insert d.id d.display_name m) ds
    ∙ ap (λ o. last_name id o ds) (lookup-insert d.id id d.display_name m)

-- A device is labelled by the name of the last device with its id, or by the first eight units of
-- the id if there is none.
pub device_label_lem :
    (devices : List Vehicle) (id : Text)
    → device_label devices id ≡ get_or (take 8 id) (last_name id none devices)
unfolding device_label lookup
device_label_lem devices id = ap (get_or (take 8 id)) (lookup-name_map id [] devices)
