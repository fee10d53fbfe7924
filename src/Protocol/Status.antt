-- ===== src/Protocol/Status.antt =====
-- protocol/src/status.rs: statuses and how they are built.
use Prim.Native.String.{String}
use xkk.Common.Int.{ℤ}
use xkk.Protocol.Code

pub record Status : Type 0 where
  pub code : ℤ
  pub message : String

abbrev pub ok_status : Status
ok_status = record { code = Code.ok; message = "" }

abbrev pub error_status : ℤ → String → Status
error_status code message = record { code = code; message = message }
