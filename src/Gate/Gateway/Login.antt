-- ===== src/Gate/Gateway/Login.antt =====
-- `handle_login` of service/gate/src/gateway.rs with `verify_online` and `select_logic`: up to the call
-- of Logic, from its response to the save of the online state, and after that.
use Prim.Native.String.{String}
use xkk.Common.{
  ℕ, Bool, false, not, ◌&&◌, ◌||◌, Option, none, some, List, [], ◌∷◌, is_empty, length, ltb, eqb,
  if◌then◌else◌, is_some, unwrap_or, Result, ok, err,
}
use xkk.Common.Int.{ℤ, pos, leb_ℤ}
use xkk.Common.Keys.{◌==◌, int_key}
use xkk.Common.Bytes.{Bytes, bytes_key}
use xkk.Cache.Online.{OnlineData, OnlineError}
use xkk.Protocol.Status.{Status, ok_status, error_status}
use xkk.Protocol.Code
use xkk.Protocol.Message
use xkk.Logic.Player.{PlayerInfo, Item}
use xkk.Gate.Session.{SessionConfig, Routes, Net}
use xkk.Gate.Sessions.{install_login}
use xkk.Gate.Gateway.{
  GatewayState, Frame, LogicLoginReq, Reply, login_rsp, Effect, close, increment, reject_login,
  send_bound, kick_local,
}

pub record LoginReq : Type 0 where
  pub gid : ℤ
  pub token : Bytes
  pub device_id : Bytes

-- What the registry of the frame knows of a service instance.
pub record Instance : Type 0 where
  pub instance_id : ℤ
  pub enable : Bool
  pub healthy : Bool
  pub connected : Bool

-- The response of Logic; the status is optional on the wire.
pub record LogicReply : Type 0 where
  pub status : Option Status
  pub player : Option PlayerInfo
  pub items : List Item

-- The answers of the token coder and of Redis.
pub record Verification : Type 0 where
  pub decoded_gid : Option ℤ
  pub loaded : Result (Option OnlineData) OnlineError

unfoldable pub verify_online : ℤ → Bytes → Verification → Option OnlineData
verify_online gid token v = elim v.decoded_gid [
  | none ↦ none
  | some decoded ↦ if not (decoded == gid) then none else elim v.loaded [
    | err _ ↦ none
    | ok found ↦ elim found [
      | none ↦ none
      | some online ↦ if online.gid == gid && online.token == token then some online else none
    ]
  ]
]

usable : Instance → Option ℤ
usable i = if i.enable && i.healthy && i.connected then some i.instance_id else none

-- `least_loaded` is the pick of the frame, and `instances` what it knows of the instances of Logic.
unfoldable pub select_logic : OnlineData → Option ℤ → (ℤ → Option Instance) → Option ℤ
unfolding usable
select_logic online least_loaded instances =
    if online.logic_id == pos 0
    then least_loaded
    else elim (instances online.logic_id) [ none ↦ none | some i ↦ usable i ]

abbrev pub logic_status : Option Status → String → Status
logic_status status message = unwrap_or status (error_status Code.internal message)

-- What the first part leaves for the next ones.
pub record PendingLogin : Type 0 where
  pub online : OnlineData
  pub routes : Routes
  pub call : LogicLoginReq

unfoldable pub invalid_login : {C : Type 0} → Frame C → LoginReq → Bool
invalid_login frame request =
    is_some frame.user_id
    || leb_ℤ request.gid (pos 0)
    || is_empty request.token
    || ltb (length request.device_id) 8
    || eqb frame.seq 0

module _ {C P R Q : Type 0} (gate_id : ℤ) where
  unfoldable pub login_request :
      Frame C
      → LoginReq
      → Verification
      → Option ℤ
      → (ℤ → Option Instance)
      → Option ℤ
      → Result PendingLogin (List (Effect C P R Q))
  unfolding invalid_login
  login_request frame request v least_loaded instances public =
      if invalid_login frame request
      then err (reject_login frame (error_status Code.invalid_argument "invalid login request"))
      else elim (verify_online request.gid request.token v) [
        | none ↦
            err (reject_login frame (error_status Code.unauthenticated "token verification failed"))
        | some online ↦ elim (select_logic online least_loaded instances) [
          | none ↦
              err
                (reject_login frame (error_status Code.temporarily_unavailable "Logic unavailable"))
          | some logic_id ↦ elim public [
            | none ↦ err (
                reject_login frame (error_status Code.temporarily_unavailable "Public unavailable"))
            | some public_id ↦ ok (record {
              online = online;
              routes = record { logic_id = logic_id; public_id = public_id };
              call = record {
                gid = request.gid;
                gate_id = gate_id;
                player_session = frame.session_id;
                device_id = request.device_id;
                reconnect = false;
              };
            })
          ]
        ]
      ]

-- The online state that a login saves.
unfoldable pub online_after_login : OnlineData → ℤ → Routes → ℤ → ℤ → OnlineData
online_after_login online gate_id routes session_id login_time = record online {
  session = session_id;
  login_time = login_time;
  logout_time = pos 0;
  public_id = routes.public_id;
  gate_id = gate_id;
  logic_id = routes.logic_id;
}

module _ {C P R Q X N : Type 0} (net : Net C P (Reply R) X) (config : SessionConfig)
    (backpressure : N → Bool) (deliver : P → Result (Unit {0}) N) (gate_id : ℤ) where
  unfoldable pub login_accepted :
      GatewayState C P
      → Frame C
      → ℤ
      → PendingLogin
      → Bool
      → ℤ
      → GatewayState C P × Result OnlineData (List (Effect C P R Q))
  unfolding online_after_login
  login_accepted st frame gid pending bound login_time =
      let (sessions, became_active) =
        install_login net config st.sessions gid frame.conn pending.routes frame.seq in
      if not bound then (st, err (close frame.conn ∷ [])) else (
        record {
          sessions = sessions;
          online_count = if became_active then increment st.online_count else st.online_count;
        },
        ok (online_after_login pending.online gate_id pending.routes frame.session_id login_time),
      )

  -- The response of Logic, `none` for a call that failed; `bound` says that the connection is bound to
  -- the user and open. The result is the online state to save.
  unfoldable pub login_reply :
      GatewayState C P
      → Frame C
      → ℤ
      → PendingLogin
      → Option LogicReply
      → Bool
      → ℤ
      → GatewayState C P × Result OnlineData (List (Effect C P R Q))
  unfolding login_accepted
  login_reply st frame gid pending none bound login_time = (
    st,
    err (reject_login frame (error_status Code.temporarily_unavailable "Logic login failed")),
  )
  login_reply st frame gid pending (some reply) bound login_time =
      let status = logic_status reply.status "Logic login response has no status" in
      if not (status.code == Code.ok)
      then (st, err (reject_login frame status))
      else login_accepted st frame gid pending bound login_time

  -- After the save of the online state.
  unfoldable pub login_saved :
      GatewayState C P
      → Frame C
      → ℤ
      → Routes
      → LogicReply
      → Bool
      → Bytes
      → ℕ
      → GatewayState C P × List (Effect C P R Q)
  login_saved st frame gid routes reply saved reason now =
      if not saved
      then kick_local net config backpressure deliver st gid frame.session_id Code.internal reason
          now
      else (
        send_bound net config backpressure deliver st gid frame.session_id Message.login_rsp
            (login_rsp ok_status gid routes.logic_id routes.public_id reply.player reply.items
              frame.session_id)
            now,
        [],
      )
