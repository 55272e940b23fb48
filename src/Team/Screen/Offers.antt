-- ===== src/Team/Screen/Offers.antt =====
-- The parts of the page without a handler that a click runs.
use ops_sys.Base.{Option, none, some, List, [], ◌∷◌, All}
use ops_sys.Base.Text.{Text, codes}
use ops_sys.Markup.{Node, text, div, offered}
use ops_sys.Markup.Clicks.{Offers, tag-All}
use ops_sys.Team.{ProjectDevices}
use ops_sys.Team.Members.{Box, Group, device_picker}
use ops_sys.Team.Screen.{Act, box_nodes, group_nodes, or_no_device, picker, optional}

module _ (P : Act → Type 0) (on_toggle : Text → Act) where
  boxes-All : (bs : List Box) → All (Offers P) (box_nodes on_toggle bs)
  unfolding box_nodes offered
  boxes-All [] = tt
  boxes-All (b ∷ bs) = (tt, boxes-All bs)

  groups-All : (gs : List Group) → All (Offers P) (group_nodes on_toggle gs)
  unfolding group_nodes offered
  groups-All [] = tt
  groups-All (g ∷ gs) = (
    tag-All P (codes "div") (div (text g.title ∷ []) ∷ box_nodes on_toggle g.boxes)
        (tt, boxes-All g.boxes),
    groups-All gs,
  )

  or_no_device-All : (ns : List (Node Act)) → All (Offers P) ns → All (Offers P) (or_no_device ns)
  unfolding offered
  or_no_device-All [] h = (tt, tt)
  or_no_device-All (n ∷ ns) h = h

  pub picker-Offers :
      (pds : List ProjectDevices) (selected : List Text) → Offers P (picker on_toggle pds selected)
  unfolding picker
  picker-Offers pds selected =
      let gs = group_nodes on_toggle (device_picker pds selected) in
      tag-All P (codes "div") (or_no_device gs)
        (or_no_device-All gs (groups-All (device_picker pds selected)))

pub optional-All : (P : Act → Type 0) (o : Option Text) → All (Offers P) (optional o)
unfolding offered
optional-All P none = tt
optional-All P (some t) = (tt, tt)
