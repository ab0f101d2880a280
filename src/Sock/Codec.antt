-- ===== src/Sock/Codec.antt =====
-- What the daemon decodes with encoding/json: the fields of a frame, or nothing where
-- `json.Unmarshal` fails.
use mure.Base.{Option, Bytes}
use mure.Base.Int.{ℤ}
use mure.Sock.{Hello, Status, Result, Wait}

-- `V` and `Event` of an envelope.
pub record Envelope : Type 0 where
  pub v : ℤ
  pub event : Bytes

pub record Codec : Type 0 where
  pub envelope : Bytes → Option Envelope
  pub hello : Bytes → Option Hello
  pub status : Bytes → Option Status
  pub result : Bytes → Option Result
  pub wait : Bytes → Option Wait
