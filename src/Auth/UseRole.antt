-- ===== src/Auth/UseRole.antt =====
-- `use_role` of service/auth/src/api.rs: which role gets the endpoints of a Gate, and which one waits in
-- the queue. Positions and places are counted in ℕ; the sums do not leave i32 and i64. Texts are their bytes.
use Prim.Native.String.{String}
use xkk.Common.{
  ℕ, ◌+◌, Bool, not, ◌&&◌, ◌||◌, Option, none, some, List, [], ◌∷◌, ◌++◌, if◌then◌else◌, is_empty,
  length, ltb, eqb, unwrap_or, Result, ok, err,
}
use xkk.Common.Int.{ℤ, pos, ◌+ℤ◌, ◌-ℤ◌, pos_part, leb_ℤ}
use xkk.Common.Keys.{Map, get, remove, int_key, ◌==◌}
use xkk.Common.Bytes.{Bytes, bytes_key}
use xkk.Cache.Online.{OnlineData, OnlineError}
use xkk.Protocol.Status.{Status, ok_status, error_status}
use xkk.Protocol.Code
use xkk.Auth.Queue.{enqueue_login}

abbrev pub gate_player_capacity : ℤ
gate_player_capacity = pos 10_000

abbrev pub login_queue_capacity : ℕ
login_queue_capacity = 100_000

abbrev pub login_queue_retry_seconds : ℤ
login_queue_retry_seconds = pos 3

-- 30 seconds, in milliseconds.
abbrev pub login_queue_entry_ttl : ℤ
login_queue_entry_ttl = pos 30_000

pub record AuthUseRoleReq : Type 0 where
  pub gid : ℤ
  pub token : Bytes
  pub device_id : Bytes

pub record Endpoint : Type 0 where
  pub transport : Bytes
  pub host : Bytes
  pub port : ℕ
  pub path : Bytes

pub record LoginQueue : Type 0 where
  pub position : ℕ
  pub next_request_time : ℤ

pub record AuthUseRoleRsp : Type 0 where
  pub status : Status
  pub gid : ℤ
  pub endpoints : List Endpoint
  pub queue : Option LoginQueue

-- What the registry of the frame knows of a Gate.
pub record Gate : Type 0 where
  pub enable : Bool
  pub healthy : Bool
  pub online_count : ℤ
  pub host : Bytes
  pub meta_data : Map Bytes Bytes

-- What the other systems answer: whether there is a slot for the request, what the token decodes to, the
-- online state in Redis, the Gates (`none` is an error), the times in milliseconds and in seconds, whether
-- the queue works when it is joined and when it is left, whether the limiter admits (`none` is an error),
-- and the Gate that is picked.
pub record UseRoleAnswers : Type 0 where
  pub permit : Bool
  pub decoded : Option ℤ
  pub online : Result (Option OnlineData) OnlineError
  pub gates : Option (List Gate)
  pub now_ms : ℤ
  pub now : ℤ
  pub joins : Bool
  pub leaves : Bool
  pub admission : Option Bool
  pub picked : Option Gate

abbrev pub use_role_error : ℤ → String → AuthUseRoleRsp
use_role_error code message = record {
  status = error_status code message;
  gid = pos 0;
  endpoints = [];
  queue = none;
}

abbrev pub waits : ℤ → ℕ → ℤ → AuthUseRoleRsp
waits gid position now = record {
  status = ok_status;
  gid = gid;
  endpoints = [];
  queue =
      some (record { position = position; next_request_time = now +ℤ login_queue_retry_seconds });
}

-- The free places of the usable Gates.
unfoldable pub available : List Gate → ℕ
available [] = 0
available (gate ∷ gates) =
    let rest = available gates in
    if gate.enable && gate.healthy
    then pos_part (gate_player_capacity -ℤ gate.online_count) + rest
    else rest

unfoldable pub invalid_role : AuthUseRoleReq → Bool
invalid_role request =
    leb_ℤ request.gid (pos 0) || is_empty request.token || ltb (length request.device_id) 8

-- The token decodes to the role, and the one in Redis is the same.
unfoldable pub verify_role : AuthUseRoleReq → UseRoleAnswers → Option AuthUseRoleRsp
verify_role request w = elim w.decoded [
  | none ↦ some (use_role_error Code.unauthenticated "token verification failed")
  | some gid ↦
      if not (gid == request.gid)
      then some (use_role_error Code.unauthenticated "token verification failed")
      else elim w.online [
        | err _ ↦ some (use_role_error Code.internal "online state load failed")
        | ok found ↦ elim found [
          | none ↦ some (use_role_error Code.unauthenticated "token state mismatch")
          | some online ↦
              if online.token == request.token
              then none
              else some (use_role_error Code.unauthenticated "token state mismatch")
        ]
      ]
]

-- `leave_login_queue`; where it fails, the queue is as it was.
unfoldable pub leave_login_queue : Map ℤ ℤ → ℤ → Bool → Map ℤ ℤ
leave_login_queue q gid works = if works then remove gid q else q

abbrev pub tcp : Bytes
tcp = 116 ∷ 99 ∷ 112 ∷ []

abbrev pub kcp : Bytes
kcp = 107 ∷ 99 ∷ 112 ∷ []

abbrev pub websocket : Bytes
websocket = 119 ∷ 101 ∷ 98 ∷ 115 ∷ 111 ∷ 99 ∷ 107 ∷ 101 ∷ 116 ∷ []

abbrev pub port_key : Bytes
port_key = 95 ∷ 112 ∷ 111 ∷ 114 ∷ 116 ∷ []

abbrev pub path_key : Bytes
path_key = 95 ∷ 112 ∷ 97 ∷ 116 ∷ 104 ∷ []

abbrev pub root : Bytes
root = 47 ∷ []

module _ (parse_u32 : Bytes → Option ℕ) where
  -- The endpoint of one transport, where the Gate advertises a port of it.
  abbrev pub endpoint : Gate → Bytes → Bytes → List Endpoint
  endpoint gate transport path = elim (get (transport ++ port_key) gate.meta_data) [
    | none ↦ []
    | some text ↦ elim (parse_u32 text) [
      | none ↦ []
      | some port ↦
          record { transport = transport; host = gate.host; port = port; path = path } ∷ []
    ]
  ]

  unfoldable pub gate_endpoints : Gate → List Endpoint
  gate_endpoints gate =
      endpoint gate tcp []
      ++ (endpoint gate kcp []
          ++ endpoint gate websocket (unwrap_or (get (websocket ++ path_key) gate.meta_data) root))

  -- A role that is next: the limiter admits it and a Gate is picked.
  unfoldable pub admit_role :
      Map ℤ ℤ → AuthUseRoleReq → ℕ → UseRoleAnswers → Map ℤ ℤ × AuthUseRoleRsp
  admit_role q request position w = elim w.admission [
    | none ↦ (q, use_role_error Code.internal "role admission failed")
    | some allowed ↦ if not allowed then (q, waits request.gid position w.now) else elim w.picked [
      | none ↦ (q, use_role_error Code.temporarily_unavailable "Gate unavailable")
      | some gate ↦
          if is_empty (gate_endpoints gate)
          then (q, use_role_error Code.temporarily_unavailable "Gate endpoint unavailable")
          else (
            leave_login_queue q request.gid w.leaves,
            record {
              status = ok_status;
              gid = request.gid;
              endpoints = gate_endpoints gate;
              queue = none;
            },
          )
    ]
  ]

  -- A role that has joined the queue.
  unfoldable pub place_role :
      Map ℤ ℤ → AuthUseRoleReq → ℕ → ℕ → UseRoleAnswers → Map ℤ ℤ × AuthUseRoleRsp
  place_role q request position free w =
      if ltb login_queue_capacity position
      then (
        leave_login_queue q request.gid w.leaves,
        use_role_error Code.overloaded "login queue is full",
      )
      else if eqb free 0 || ltb free position
      then (q, waits request.gid position w.now)
      else admit_role q request position w

  module _ (precedes : ℤ → ℤ → Bool) where
    unfoldable pub use_role : Map ℤ ℤ → AuthUseRoleReq → UseRoleAnswers → Map ℤ ℤ × AuthUseRoleRsp
    use_role q request w =
        if not w.permit
        then (q, use_role_error Code.overloaded "Auth request capacity exhausted")
        else if invalid_role request
        then (q, use_role_error Code.invalid_argument "invalid role request")
        else elim (verify_role request w) [
          | some error ↦ (q, error)
          | none ↦ elim w.gates [
            | none ↦ (q, use_role_error Code.temporarily_unavailable "Gate unavailable")
            | some gates ↦
                if not w.joins
                then (q, use_role_error Code.internal "login queue failed")
                else place_role
                    (enqueue_login precedes q request.gid w.now_ms login_queue_entry_ttl).0 request
                    (enqueue_login precedes q request.gid w.now_ms login_queue_entry_ttl).1
                    (available gates) w
          ]
        ]
