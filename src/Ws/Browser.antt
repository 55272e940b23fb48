-- ===== src/Ws/Browser.antt =====
-- What the browser gives to server/dashboard/src/ws/WsManager.ts: sockets and timers by number.
-- A socket keeps whether its `onclose` is set; `onopen` and `onmessage` are set at once and stay.
use ops_sys.Base.{ℕ, [], Bool, true, false, if◌then◌else◌, ◌==◌}
use ops_sys.Base.Text.{Text}

pub data ReadyState : Type 0 where
  connecting opened closing closed : ReadyState

pub record Socket : Type 0 where
  pub ready : ReadyState
  pub has_onclose : Bool
  pub url : Text

abbrev pub is_closed : ReadyState → Bool
is_closed closed = true
is_closed _ = false

-- `close()`
abbrev pub after_close : ReadyState → ReadyState
after_close closed = closed
after_close _ = closing

-- `ws.onclose = null; ws.close()`
abbrev pub shut : Socket → Socket
shut s = record s { ready = after_close s.ready; has_onclose = false }

-- A number that was not given out yet stands for no socket.
abbrev pub no_socket : Socket
no_socket = record { ready = closed; has_onclose = false; url = [] }

abbrev pub update {ℓ} : {A : Type ℓ} → (ℕ → A) → ℕ → A → ℕ → A
update f i a j = if i == j then a else f j
