-- ===== src/Ws/Ids.antt =====
-- Which vehicles are subscribed: a set, and no count of the subscribers.
use ops_sys.Base.{
  ℕ, zero, suc, Bool, true, false, ◌≡◌, refl, ap, ◌∙◌, List, [], ◌∷◌, arith, if◌then◌else◌,
}
use ops_sys.Base.Text.{Text, text_eq, text_eq_refl}
use ops_sys.Base.Sets.{has, add, delete, has-add, has-delete, add_present, delete_absent}
use ops_sys.Ws.{
  World, clear_retry, close_ws, close_live_ws, set_status, new_socket, open_ws, teardown, reconnect,
  subscribe, unsubscribe,
}

pub ids-reconnect : (w : World) → (reconnect w).subscribed_ids ≡ w.subscribed_ids
unfolding reconnect clear_retry close_live_ws open_ws new_socket set_status
ids-reconnect w = ground arith

pub ids-teardown : (w : World) → (teardown w).subscribed_ids ≡ w.subscribed_ids
unfolding teardown clear_retry close_ws set_status
ids-teardown w = ground arith

pub ids-subscribe : (v : Text) (w : World) → (subscribe v w).subscribed_ids ≡ add v w.subscribed_ids
unfolding subscribe
ids-subscribe v w = ground (
  arith,
  add_present v w.subscribed_ids,
  ids-reconnect (record w { subscribed_ids = add v w.subscribed_ids; destroyed = false }),
)

pub ids-unsubscribe :
    (v : Text) (w : World) → (unsubscribe v w).subscribed_ids ≡ delete v w.subscribed_ids
unfolding unsubscribe
ids-unsubscribe v w = ground (
  arith,
  delete_absent v w.subscribed_ids,
  ids-reconnect (record w { subscribed_ids = delete v w.subscribed_ids }),
  ids-teardown (record w { subscribed_ids = delete v w.subscribed_ids }),
)

-- A call of a page.
pub data Call : Type 0 where
  subscribes unsubscribes : Text → Call

unfoldable pub run : World → List Call → World
run w [] = w
run w (subscribes v ∷ cs) = run (subscribe v w) cs
run w (unsubscribes v ∷ cs) = run (unsubscribe v w) cs

-- The last call about a vehicle decides.
abbrev pub decided : Text → Bool → List Call → Bool
decided v b [] = b
decided v b (subscribes u ∷ cs) = decided v (if text_eq u v then true else b) cs
decided v b (unsubscribes u ∷ cs) = decided v (if text_eq u v then false else b) cs

-- After any calls, a vehicle is subscribed exactly when the last call about it was `subscribe`,
-- or as before if no call was about it.
pub has-run :
    (w : World) (cs : List Call) (v : Text)
    → has v (run w cs).subscribed_ids ≡ decided v (has v w.subscribed_ids) cs
unfolding run
has-run w [] v = refl
has-run w (subscribes u ∷ cs) v =
    has-run (subscribe u w) cs v
    ∙ ap (λ (b : Bool). decided v b cs)
        (ap (has v) (ids-subscribe u w) ∙ has-add u v w.subscribed_ids)
has-run w (unsubscribes u ∷ cs) v =
    has-run (unsubscribe u w) cs v
    ∙ ap (λ (b : Bool). decided v b cs)
        (ap (has v) (ids-unsubscribe u w) ∙ has-delete u v w.subscribed_ids)

-- `n` components ask for a vehicle.
abbrev pub asks : ℕ → Text → List Call
asks zero v = []
asks (suc n) v = subscribes v ∷ asks n v

-- The subscriptions of a vehicle are not counted: however often it was subscribed, one
-- `unsubscribe` ends it for all, and the other vehicles keep theirs.
pub unsubscribe-asks :
    (w : World) (n : ℕ) (v : Text) → has v (unsubscribe v (run w (asks n v))).subscribed_ids ≡ false
unsubscribe-asks w n v =
    ap (has v) (ids-unsubscribe v (run w (asks n v)))
    ∙ (has-delete v v (run w (asks n v)).subscribed_ids ∙ rw (text_eq_refl v) refl)

has-of-ids : (v : Text) (w : World) → has v (subscribe v w).subscribed_ids ≡ true
has-of-ids v w =
    ap (has v) (ids-subscribe v w) ∙ (has-add v v w.subscribed_ids ∙ rw (text_eq_refl v) refl)

-- A second `subscribe` of a vehicle changes nothing at all, no socket included, and so does an
-- `unsubscribe` that follows another.
pub subscribe_again :
    (v : Text) (w : World)
    → (subscribe v (subscribe v w) ≡ subscribe v w)
      × (unsubscribe v (unsubscribe v w) ≡ unsubscribe v w)
unfolding run
subscribe_again v w = (present (subscribe v w) (has-of-ids v w), absent (unsubscribe v w) gone)
  where
    present : (u : World) → has v u.subscribed_ids ≡ true → subscribe v u ≡ u
    present u h = unfold subscribe in rw h refl

    absent : (u : World) → has v u.subscribed_ids ≡ false → unsubscribe v u ≡ u
    absent u h = unfold unsubscribe in rw h refl

    gone : has v (unsubscribe v w).subscribed_ids ≡ false
    gone = unsubscribe-asks w 0 v
