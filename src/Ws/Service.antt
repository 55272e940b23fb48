-- ===== src/Ws/Service.antt =====
-- What the manager promises, without sockets and timers: a service that has a set of wanted vehicles
-- and is off, trying to connect, or on. The order of the ids is forgotten.
pub mod Simulation
use mathlib.Core.Path.{fun_ext}
use ops_sys.Base.{
  ℕ, Bool, true, false, ◌≡◌, ◌≢◌, refl, sym, ap, ◌∙◌, arith, inl, inr, Bool-cases, if◌then◌else◌,
  List, [], ◌∷◌, subst,
}
use ops_sys.Base.Text.{Text, text_eq}
use ops_sys.Base.Sets.{has, add, delete, has-add, has-delete}
use ops_sys.Ws.{World, WsStatus, disconnected, connecting, connected, subscribe, unsubscribe}
use ops_sys.Ws.Phases.{is_dead}
use ops_sys.Ws.Steps.{
  Step, subscribes, unsubscribes, listens, leaves, opens, receives, begins_to_close, closes, fires,
  stores_change, Reach, here, next, initial,
}

pub data Connection : Type 0 where
  off trying on : Connection

pub record Service : Type 0 where
  pub wants : Text → Bool
  pub connection : Connection

abbrev pub nothing_wanted : Service
nothing_wanted = record { wants = λ _. false; connection = off }

abbrev pub with_want : Text → Bool → (Text → Bool) → Text → Bool
with_want v b wants u = if text_eq v u then b else wants u

-- What can be asked of the service, and what can happen to it; `unseen` is what it does not show.
pub data Label : Type 0 where
  asks gives_up : Text → Label
  comes_up goes_down unseen : Label

-- The moves of the service. Asking for a vehicle that is not wanted, or giving up one that is, starts
-- a new attempt, since a connection is told its vehicles only once; giving up the last one ends it
-- all. An attempt that is under way comes up, and a connection or an attempt that goes down is tried
-- again.
pub data Move (s : Service) (u : Service) : Label → Type 0 where
  has_it : {v : Text} → s.wants v ≡ true → u ≡ s → Move s u (asks v)
  takes_it :
      {v : Text}
      → s.wants v ≡ false
      → u ≡ record { wants = with_want v true s.wants; connection = trying }
      → Move s u (asks v)
  lacks_it : {v : Text} → s.wants v ≡ false → u ≡ s → Move s u (gives_up v)
  drops_it :
      {v : Text} (w : Text)
      → s.wants v ≡ true
      → with_want v false s.wants w ≡ true
      → u ≡ record { wants = with_want v false s.wants; connection = trying }
      → Move s u (gives_up v)
  ends :
      {v : Text}
      → s.wants v ≡ true
      → ((w : Text) → with_want v false s.wants w ≡ false)
      → u ≡ record { wants = with_want v false s.wants; connection = off }
      → Move s u (gives_up v)
  connects : s.connection ≡ trying → u ≡ record s { connection = on } → Move s u comes_up
  loses : s.connection ≢ off → u ≡ record s { connection = trying } → Move s u goes_down
  stays : u ≡ s → Move s u unseen

-- A run of the service with the labels of its moves, the last one first.
pub data Moves (s : Service) : List Label → Service → Type 0 where
  start : Moves s [] s
  followed_by :
      {t u : Service} {l : Label} {ls : List Label} → Moves s ls t → Move t u l → Moves s (l ∷ ls) u

-- What a step of the manager is to the service: the calls, a socket that opens, and a socket that
-- closes while the manager hears it.
abbrev pub label : {w u : World} → Step w u → Label
label (subscribes v) = asks v
label (unsubscribes v) = gives_up v
label (opens i e) = comes_up
label {w} (closes i e) = if is_dead (w.sockets i) then unseen else goes_down
label (listens fn) = unseen
label (leaves fn) = unseen
label (receives i m e) = unseen
label (begins_to_close i e) = unseen
label (fires t d e) = unseen
label (stores_change token telemetry alerts) = unseen

abbrev pub labels : {w u : World} → Reach w u → List Label
labels here = []
labels (next r s) = label s ∷ labels r

abbrev pub connection_of : WsStatus → Connection
connection_of disconnected = off
connection_of connecting = trying
connection_of connected = on

abbrev pub view : World → Service
view w = record { wants = λ v. has v w.subscribed_ids; connection = connection_of w.status }

-- A view is known by its ids and its status.
pub view-ext :
    (w : World) (ids : List Text) (s : WsStatus)
    → w.subscribed_ids ≡ ids
    → w.status ≡ s
    → view w ≡ record { wants = λ v. has v ids; connection = connection_of s }
view-ext w ids s e f = rw (e, f) refl

pub wants-add :
    (v : Text) (ids : List Text) → (λ u. has u (add v ids)) ≡ with_want v true (λ u. has u ids)
wants-add v ids = fun_ext λ u. has-add v u ids

pub wants-delete :
    (v : Text) (ids : List Text) → (λ u. has u (delete v ids)) ≡ with_want v false (λ u. has u ids)
wants-delete v ids = fun_ext λ u. has-delete v u ids
