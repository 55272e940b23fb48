-- ===== src/Server.antt =====
-- What an awaited call of a service brings: a value, or an exception with its message. The services
-- are not part of the dashboard, so their answers are arguments of the handlers.
use ops_sys.Base.Text.{Text}

pub data Answer {ℓ} (A : Type ℓ) : Type ℓ where
  answered : A → Answer A
  failed : Text → Answer A
