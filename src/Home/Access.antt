-- ===== src/Home/Access.antt =====
-- Which projects the home page shows to whom.
use ops_sys.Base.{
  Bool, true, false, ◌≡◌, refl, ap, ◌||◌, Option, List, [], ◌∷◌, arith, if◌then◌else◌, Bool-cases,
  inl, inr, filter, any, get_or, length,
}
use ops_sys.Base.Text.{Text}
use ops_sys.Base.Sets.{has, set_of, is_one, has-set_of}
use ops_sys.Fleet.{Vehicle, Project}
use ops_sys.Auth.{is_admin}
use ops_sys.Server.{Answer, answered, failed}
use ops_sys.Home.{Sessions, Entry, Devices, with_count, with_counts, vehicle_set_of, visible}

-- The devices that the services list for a project; none if the request fails.
abbrev pub listed : Devices → Project → List Vehicle
listed list_devices p = elim (list_devices p.name) [ answered d ↦ get_or [] d | failed _ ↦ [] ]

-- A project is seen by an administrator of the session of now, or for one of the devices of the session
-- that was rendered.
abbrev pub may_see : Sessions → List Vehicle → Bool
may_see s devices = is_admin s.now || any (λ d. is_one d.id (vehicle_set_of s.rendered)) devices

-- A card of the page.
abbrev pub card : List Vehicle → Project → Entry
card devices p = record { project = p; device_count = length devices; devices = devices }

-- The cards of the two sessions, in the order of the projects.
abbrev pub cards : Sessions → Devices → List Project → List Entry
cards s list_devices [] = []
cards s list_devices (p ∷ ps) =
    let rest = cards s list_devices ps in
    if may_see s (listed list_devices p) then card (listed list_devices p) p ∷ rest else rest

with_count-card :
    (list_devices : Devices) (p : Project)
    → with_count list_devices p ≡ card (listed list_devices p) p
unfolding with_count
with_count-card list_devices p = go (list_devices p.name)
  where
    go :
        (a : Answer (Option (List Vehicle)))
        → (elim a as (λ _. Entry) [
          | answered d ↦ record {
            project = p;
            device_count = length (get_or [] d);
            devices = get_or [] d;
          }
          | failed _ ↦ record { project = p; device_count = 0; devices = [] }
        ])
          ≡ card (elim a [ answered d ↦ get_or [] d | failed _ ↦ [] ]) p
    go (answered d) = refl
    go (failed _) = refl

any-set_of :
    (vs : List Text) (ds : List Vehicle)
    → any (λ d. has d.id (set_of [] vs)) ds ≡ any (λ d. is_one d.id vs) ds
unfolding has
any-set_of vs [] = refl
any-set_of vs (d ∷ ds) = ground (arith, has-set_of d.id [] vs, any-set_of vs ds)

admin-cards :
    (s : Sessions) (list_devices : Devices) (ps : List Project)
    → is_admin s.now ≡ true
    → with_counts list_devices ps ≡ cards s list_devices ps
unfolding with_counts
admin-cards s list_devices [] h = refl
admin-cards s list_devices (p ∷ ps) h =
    rw (h, with_count-card list_devices p)
      (ap (◌∷◌ (card (listed list_devices p) p)) (admin-cards s list_devices ps h))

-- The test of the filter.
abbrev pub has_one : Sessions → Entry → Bool
has_one s e = any (λ d. has d.id (set_of [] (vehicle_set_of s.rendered))) e.devices

cards-filter :
    (s : Sessions) (list_devices : Devices) (ps : List Project)
    → is_admin s.now ≡ false
    → filter (has_one s) (with_counts list_devices ps) ≡ cards s list_devices ps
unfolding with_counts
cards-filter s list_devices [] h = refl
cards-filter s list_devices (p ∷ ps) h =
    rw
      (
        h,
        with_count-card list_devices p,
        any-set_of (vehicle_set_of s.rendered) (listed list_devices p),
        cards-filter s list_devices ps h,
      )
      refl

pub visible-cards :
    (s : Sessions) (list_devices : Devices) (ps : List Project)
    → visible s (with_counts list_devices ps) ≡ cards s list_devices ps
unfolding visible
visible-cards s list_devices ps = elim (Bool-cases (is_admin s.now)) [
  | inl admin ↦ rw admin (admin-cards s list_devices ps admin)
  | inr other ↦ rw other (cards-filter s list_devices ps other)
]
