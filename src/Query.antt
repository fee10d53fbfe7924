-- ===== src/Query.antt =====
-- service/query/src/query.rs: the profiles of a batch of players. `inflight` is the number of requests
-- that hold a permit of the semaphore, and `load` the answer of the store.
pub mod Ids
use Prim.Native.String.{String}
use xkk.Common.{ℕ, Bool, Option, none, some, List, [], is_empty, length, leb, ltb, if◌then◌else◌}
use xkk.Common.Int.{ℤ}
use xkk.Common.Ids.{distinct_positive}
use xkk.Protocol.Status.{Status, ok_status, error_status}
use xkk.Protocol.Code
use xkk.Logic.Player.{PlayerInfo}

pub record GamerInfoRsp : Type 0 where
  pub status : Status
  pub players : List PlayerInfo

abbrev pub max_gamer_ids : ℕ
max_gamer_ids = 100

abbrev pub max_inflight_requests : ℕ
max_inflight_requests = 1024

unfoldable pub valid_gamer_ids : List ℤ → Option (List ℤ)
valid_gamer_ids ids =
    if is_empty ids
    then none
    else if ltb max_gamer_ids (length ids)
    then none
    else if distinct_positive [] ids
    then some ids
    else none

gamer_info_error : ℤ → String → GamerInfoRsp
gamer_info_error code message = record { status = error_status code message; players = [] }

unfoldable pub gamer_info : ℕ → List ℤ → (List ℤ → Option (List PlayerInfo)) → GamerInfoRsp
unfolding gamer_info_error
gamer_info inflight ids load =
    if leb max_inflight_requests inflight
    then gamer_info_error Code.overloaded "Query request capacity exhausted"
    else elim (valid_gamer_ids ids) [
      | none ↦ gamer_info_error Code.invalid_argument "invalid gamer ids"
      | some gamer_ids ↦ elim (load gamer_ids) [
        | none ↦ gamer_info_error Code.internal "player load failed"
        | some players ↦ record { status = ok_status; players = players }
      ]
    ]
