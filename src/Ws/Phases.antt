-- ===== src/Ws/Phases.antt =====
-- The three phases of the manager: nothing subscribed, one retry pending, or one connection.
pub mod Settle
pub mod Preserved
pub mod Events
use ops_sys.Base.{ℕ, Bool, true, false, not, ◌≡◌, ◌≢◌, ◌≤◌, Option, none, some, List, [], ◌∷◌}
use ops_sys.Base.Text.{Text}
use ops_sys.Ws.Browser.{ReadyState, Socket, closing, closed, opened}
use ops_sys.Ws.{
  World, WsStatus, disconnected, connecting, connected, is_empty, first_delay, max_delay, request,
  SubscribeRequest,
}

-- A socket that neither has a connection nor will call the manager back.
abbrev pub is_dead : Socket → Bool
is_dead s = elim s.ready [ closed ↦ true | closing ↦ not s.has_onclose | _ ↦ false ]

pub record InBounds (delay : ℕ) : Type 0 where
  pub at_least : first_delay ≤ delay
  pub at_most : delay ≤ max_delay

-- Only `this.ws` may be alive, and only `this.retryTimer` pending.
pub record Tidy (w : World) : Type 0 where
  pub others : (j : ℕ) → w.ws ≢ some j → is_dead (w.sockets j) ≡ true
  pub timers_owned : (t : ℕ) → w.retry_timer ≢ some t → w.timers t ≡ none
  pub delay : InBounds w.retry_delay

-- Nothing is alive or pending.
pub record Quiet (w : World) : Type 0 where
  pub dead : (j : ℕ) → is_dead (w.sockets j) ≡ true
  pub no_timer : (t : ℕ) → w.timers t ≡ none
  pub delay : InBounds w.retry_delay

-- A page is subscribed, and the manager is in use.
pub record Wanted (ids : List Text) (destroyed : Bool) : Type 0 where
  pub nonempty : is_empty ids ≡ false
  pub in_use : destroyed ≡ false

pub record Idle (w : World) : Type 0 where
  pub quiet : Quiet w
  pub no_ids : w.subscribed_ids ≡ []
  pub shown : w.status ≡ disconnected

pub record Waiting (t : ℕ) (w : World) : Type 0 where
  pub wanted : Wanted w.subscribed_ids w.destroyed
  pub dead : (j : ℕ) → is_dead (w.sockets j) ≡ true
  pub owned : w.retry_timer ≡ some t
  pub pending : w.timers t ≡ some w.retry_delay
  pub no_other : (t' : ℕ) → t' ≢ t → w.timers t' ≡ none
  pub shown : w.status ≡ connecting
  pub delay : InBounds w.retry_delay

-- The status that the socket of a connection shows.
abbrev pub shows : ReadyState → WsStatus
shows ReadyState.connecting = connecting
shows opened = connected
shows closing = connected
shows closed = disconnected

abbrev pub last_sent : World → Option (ℕ × SubscribeRequest)
last_sent w = elim w.sent [ [] ↦ none | m ∷ _ ↦ some m ]

pub record Live (i : ℕ) (w : World) : Type 0 where
  pub wanted : Wanted w.subscribed_ids w.destroyed
  pub owned : w.ws ≡ some i
  pub calls_back : (w.sockets i).has_onclose ≡ true
  pub alive : (w.sockets i).ready ≢ closed
  pub others : (j : ℕ) → j ≢ i → is_dead (w.sockets j) ≡ true
  pub no_timer : (t : ℕ) → w.timers t ≡ none
  pub shown : w.status ≡ shows (w.sockets i).ready
  pub told : (w.sockets i).ready ≡ opened → last_sent w ≡ some (i, request w)
  pub delay : InBounds w.retry_delay

pub data Phase (w : World) : Type 0 where
  idle : Idle w → Phase w
  waiting : (t : ℕ) → Waiting t w → Phase w
  live : (i : ℕ) → Live i w → Phase w
