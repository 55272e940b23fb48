-- ===== src/Frames.antt =====
-- server/dashboard/src/types/telemetry.ts: the frames of the live connection. A frame comes from
-- an unchecked cast, so a field with a union of literals is any text here, and `other` is a value
-- whose `type` is none of the three.
use ops_sys.Base.{ℕ}
use ops_sys.Base.Text.{Text}

-- The 64 bits of a JavaScript number that is only stored and shown, never computed with.
abbrev pub Double : Type 0
Double = ℕ

-- `ts` counts nanoseconds, and is compared, so it is a number here.
pub record TelemetryFrame : Type 0 where
  pub vehicle_id : Text
  pub ts : ℕ
  pub lat : Double
  pub lon : Double
  pub alt : Double
  pub seq : ℕ
  pub payload_b64 : Text

pub record AlertFrame : Type 0 where
  pub device : Text
  pub level : Text
  pub message : Text

pub record AssistanceFrame : Type 0 where
  pub device : Text
  pub request_id : Text
  pub reason : Text

pub data LiveFrame : Type 0 where
  telemetry : TelemetryFrame → LiveFrame
  alert : AlertFrame → LiveFrame
  assistance_request : AssistanceFrame → LiveFrame
  other : LiveFrame
