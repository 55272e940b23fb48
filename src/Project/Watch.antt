-- ===== src/Project/Watch.antt =====
-- The effect on `devices` of pages/Project/ProjectPage.tsx over the life of the page: it subscribes the
-- devices and asks for an animation frame, whose callback runs `tick` and asks for the next; its
-- clean-up cancels the one that is pending and unsubscribes. A callback keeps the ids of the effect
-- that made it.
pub mod Invariant
mod Tests
use ops_sys.Base.{
  ℕ, ◌+◌, Bool, true, false, ◌≡◌, refl, sym, ap, ◌∙◌, ◌==◌, ◌||◌, ◌&&◌, not, arith, if◌then◌else◌,
  List, [], ◌∷◌, ◌++◌, Option, none, some, Bool-cases, inl, inr,
}
use ops_sys.Base.Text.{Text}
use ops_sys.Base.Sets.{has, is_one}
use ops_sys.Fleet.{Vehicle}
use ops_sys.Ws.{World, Message, on_message}
use ops_sys.Project.{Page, ids_of, tick}
use ops_sys.Project.Devices.{mount, unmount, has-mount}

pub record Watch : Type 0 where
  pub page : Page
  pub world : World
  -- `rafRef.current`, and the callbacks that the browser holds, with their handles and ids.
  pub raf : ℕ
  pub requested : List (ℕ × List Text)
  pub next_handle : ℕ

abbrev pub no_devices : List Vehicle → Bool
no_devices [] = true
no_devices (_ ∷ _) = false

-- `cancelAnimationFrame`, and what the browser does before it calls a callback.
unfoldable pub cancel : ℕ → List (ℕ × List Text) → List (ℕ × List Text)
cancel h [] = []
cancel h ((k, ids) ∷ rs) = let rest = cancel h rs in if k == h then rest else (k, ids) ∷ rest

unfoldable pub callback : ℕ → List (ℕ × List Text) → Option (List Text)
callback h [] = none
callback h ((k, ids) ∷ rs) = if k == h then some ids else callback h rs

-- `rafRef.current = requestAnimationFrame(tick)`
unfoldable pub request_frame : List Text → Watch → Watch
request_frame ids s = record s {
  raf = s.next_handle;
  requested = s.requested ++ (s.next_handle, ids) ∷ [];
  next_handle = s.next_handle + 1;
}

unfoldable pub start : List Vehicle → Watch → Watch
unfolding request_frame
start devices s =
    if no_devices devices
    then s
    else request_frame (ids_of devices) (record s { world = mount devices s.world })

unfoldable pub clean_up : List Vehicle → Watch → Watch
unfolding cancel
clean_up devices s =
    if no_devices devices
    then s
    else record s { world = unmount devices s.world; requested = cancel s.raf s.requested }

-- A commit after `setDevices`: the old effect is cleaned up before the new one runs.
unfoldable pub set_devices : List Vehicle → Watch → Watch
unfolding start clean_up
set_devices devices s =
    let cleaned = clean_up s.page.devices s in
    start devices (record cleaned { page = record cleaned.page { devices = devices } })

-- The callback of `tick` with that handle, if the browser holds it.
unfoldable pub call : Option (List Text) → ℕ → Watch → Watch
unfolding cancel request_frame
call none h s = s
call (some ids) h s =
    request_frame ids
      (record s { requested = cancel h s.requested; page = tick ids s.world.telemetry s.page })

unfoldable pub animation_frame : ℕ → Watch → Watch
unfolding callback call
animation_frame h s = call (callback h s.requested) h s

-- What happens while the page is mounted.
pub data Event : Type 0 where
  sets : List Vehicle → Event
  frame : ℕ → Event
  receives : Message → Event

abbrev pub after : Watch → Event → Watch
after s (sets devices) = set_devices devices s
after s (frame h) = animation_frame h s
after s (receives m) = record s { world = on_message m s.world }

abbrev pub run : Watch → List Event → Watch
run s [] = s
run s (e ∷ es) = run (after s e) es

-- The page goes away.
abbrev pub leave : Watch → Watch
leave s = clean_up s.page.devices s
