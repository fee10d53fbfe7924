-- ===== src/Gate/Gateway.antt =====
-- service/gate/src/gateway.rs: `GatewayState`. A handler is cut at its calls of other services: each
-- part runs without another one between its changes, and is a function from the state and the answers it got to the state and its effects, in order.
-- A frame carries what its connection and its head say; `none` for a request is a body that does
-- not decode. Metrics and logs are left out.
pub mod Login
pub mod Reconnect
pub mod Forward
pub mod Online
pub mod Flows
pub mod Runs
pub mod Drift
mod Dispatch
mod Examples
use xkk.Common.{
  ℕ, Bool, true, false, not, ◌||◌, ◌^◌, ◌-◌, Option, none, some, List, [], ◌∷◌, ◌++◌, if◌then◌else◌,
  is_some, Result, ok, err,
}
use xkk.Common.Int.{ℤ, pos, negsuc, ◌+ℤ◌, ◌-ℤ◌, leb_ℤ, eqb_ℤ}
use xkk.Common.Bytes.{Bytes}
use xkk.Cache.Online.{OnlineData}
use xkk.Protocol.Status.{Status, ok_status, error_status}
use xkk.Protocol.Code
use xkk.Protocol.Message.{MsgId, RouteTarget}
use xkk.Protocol.Message
use xkk.Logic.Player.{PlayerInfo, Item}
use xkk.Gate.Session.{SessionConfig, Routes, RequestError, Net}
use xkk.Gate.Sessions.{
  Players, accept_request, acknowledge, current_session, disconnect, invalidate, kick, send,
}

pub record GatewayState (C P : Type 0) : Type 0 where
  pub sessions : Players C P
  pub online_count : ℤ

-- A packet of a client: its connection, the session id and the user that are bound to it, and the
-- sequence number and the acknowledgement of its head.
pub record Frame (C : Type 0) : Type 0 where
  pub conn : C
  pub session_id : ℤ
  pub user_id : Option ℤ
  pub seq : ℕ
  pub ack : ℕ

pub record LogicLoginReq : Type 0 where
  pub gid : ℤ
  pub gate_id : ℤ
  pub player_session : ℤ
  pub device_id : Bytes
  pub reconnect : Bool

-- The messages that a gate sends to its clients; `R` is a response of another service.
pub data Reply (R : Type 0) : Type 0 where
  ping_rsp : Status → ℕ → ℕ → Reply R
  login_rsp : Status → ℤ → ℤ → ℤ → Option PlayerInfo → List Item → ℤ → Reply R
  reconnect_rsp : Status → ℕ → ℤ → Reply R
  logout_rsp : Status → Reply R
  kick_ntf : ℤ → Bytes → Reply R
  mail_info_ntf : R → Reply R
  business : R → Reply R

-- What a handler does outside the state; the packets of a session are part of the session.
pub data Effect (C P R Q : Type 0) : Type 0 where
  close : C → Effect C P R Q
  send_direct : C → MsgId → ℕ → Reply R → Effect C P R Q
  send_shared : C → P → Effect C P R Q
  logic_login : ℤ → LogicLoginReq → Effect C P R Q
  logic_disconnect : ℤ → ℤ → ℤ → Effect C P R Q
  call_routed : RouteTarget → ℤ → ℤ → ℤ → Q → Effect C P R Q
  save_online : OnlineData → Effect C P R Q
  clear_gate : ℤ → ℤ → Effect C P R Q

-- `fetch_add(1)` of an i32.
unfoldable pub increment : ℤ → ℤ
increment count = if eqb_ℤ count (pos (2 ^ 31 - 1)) then negsuc (2 ^ 31 - 1) else count +ℤ pos 1

-- `(current - 1).max(0)` of an i32.
unfoldable pub decrement : ℤ → ℤ
decrement count =
    if eqb_ℤ count (negsuc (2 ^ 31 - 1))
    then pos (2 ^ 31 - 1)
    else if leb_ℤ count (pos 1)
    then pos 0
    else count -ℤ pos 1

module _ {C P R Q : Type 0} where
  -- What a login, a reconnect and a forwarded request begin with: a body that does not decode closes
  -- the connection.
  abbrev pub decode : {B : Type 0} → Frame C → Option B → Result B (List (Effect C P R Q))
  decode frame none = err (close frame.conn ∷ [])
  decode frame (some body) = ok body

  -- `reject_login` and `reject_reconnect`: the answer is sent, then the connection is closed.
  abbrev pub reject_login : Frame C → Status → List (Effect C P R Q)
  reject_login frame status =
      send_direct frame.conn Message.login_rsp frame.seq
        (login_rsp status (pos 0) (pos 0) (pos 0) none [] (pos 0))
      ∷ close frame.conn
      ∷ []

  abbrev pub reject_reconnect : Frame C → Status → List (Effect C P R Q)
  reject_reconnect frame status =
      send_direct frame.conn Message.reconnect_rsp frame.seq (reconnect_rsp status 0 (pos 0))
      ∷ close frame.conn
      ∷ []

-- `deliver` is the answer of a connection that is handed a packet, and `backpressure` tells a full
-- write queue.
module _ {C P R X N : Type 0} (net : Net C P (Reply R) X) (config : SessionConfig)
    (backpressure : N → Bool) (deliver : P → Result (Unit {0}) N) where
  abbrev pub send_bound : GatewayState C P → ℤ → ℤ → MsgId → Reply R → ℕ → GatewayState C P
  send_bound st gid session_id msgid message now = record st {
    sessions =
        (send net config backpressure deliver st.sessions gid session_id msgid message now).0;
  }

  unfoldable pub push_mail : GatewayState C P → ℤ → Option R → ℕ → GatewayState C P
  push_mail st gid none now = st
  push_mail st gid (some mail) now = elim (current_session st.sessions gid) [
    | none ↦ st
    | some session_id ↦ send_bound st gid session_id Message.mail_info_ntf (mail_info_ntf mail) now
  ]

-- The count after a kick.
unfoldable pub kick_count : {C P X : Type 0} → Option (Option (C × Result P X)) → ℤ → ℤ
unfolding decrement
kick_count (some (some _)) count = decrement count
kick_count _ count = count

module _ {C P R Q X N : Type 0} (net : Net C P (Reply R) X) (config : SessionConfig)
    (backpressure : N → Bool) (deliver : P → Result (Unit {0}) N) where
  unfoldable pub handle_ack :
      GatewayState C P → Frame C → Bool → ℕ → GatewayState C P × List (Effect C P R Q)
  handle_ack st frame decodes now =
      if not decodes then (st, close frame.conn ∷ []) else elim frame.user_id [
        | none ↦ (st, close frame.conn ∷ [])
        | some gid ↦
            let (sessions, result) =
              acknowledge st.sessions gid frame.session_id frame.seq frame.ack now config in
            (
              record st { sessions = sessions },
              elim result [ ok _ ↦ [] | err _ ↦ close frame.conn ∷ [] ],
            )
      ]

  ping_bound :
      GatewayState C P
      → Frame C
      → ℤ
      → Reply R
      → ℕ
      → Players C P × Result (Unit {0}) RequestError
      → GatewayState C P × List (Effect C P R Q)
  ping_bound st frame gid response now (sessions, err e) =
      (record st { sessions = sessions }, close frame.conn ∷ [])
  ping_bound st frame gid response now (sessions, ok _) = (
    send_bound net config backpressure deliver (record st { sessions = sessions }) gid
        frame.session_id Message.ping_rsp response now,
    [],
  )

  -- The request is its client time; the server time is `unix_millis()`.
  unfoldable pub handle_ping :
      GatewayState C P → Frame C → Option ℕ → ℕ → ℕ → GatewayState C P × List (Effect C P R Q)
  unfolding ping_bound
  handle_ping st frame none server_time_ms now = (st, close frame.conn ∷ [])
  handle_ping st frame (some client_time_ms) server_time_ms now =
      let response : Reply R = ping_rsp ok_status client_time_ms server_time_ms in
      elim frame.user_id [
        | none ↦ (st, send_direct frame.conn Message.ping_rsp frame.seq response ∷ [])
        | some gid ↦
            ping_bound st frame gid response now
              (acknowledge st.sessions gid frame.session_id frame.seq frame.ack now config)
      ]

  logout_accepted :
      GatewayState C P
      → Frame C
      → ℤ
      → ℕ
      → Players C P × Result Routes RequestError
      → GatewayState C P × List (Effect C P R Q)
  logout_accepted st frame gid now (sessions, err RequestError.rate_limited) = (
    send_bound net config backpressure deliver (record st { sessions = sessions }) gid
        frame.session_id Message.logout_rsp
        (logout_rsp (error_status Code.rate_limited "request rate exceeded")) now,
    [],
  )
  logout_accepted st frame gid now (sessions, err _) =
      (record st { sessions = sessions }, close frame.conn ∷ [])
  logout_accepted st frame gid now (sessions, ok routes) =
      let sent =
        send_bound net config backpressure deliver (record st { sessions = sessions }) gid
          frame.session_id Message.logout_rsp (logout_rsp ok_status) now in
      (
        record {
          sessions = (invalidate sent.sessions gid frame.session_id).0;
          online_count = decrement sent.online_count;
        },
        logic_disconnect routes.logic_id gid frame.session_id
            ∷ clear_gate gid frame.session_id
            ∷ close frame.conn
            ∷ [],
      )

  -- One part: its four changes of the sessions and of the counter come without another handler's between.
  unfoldable pub handle_logout :
      GatewayState C P → Frame C → Bool → ℕ → GatewayState C P × List (Effect C P R Q)
  unfolding logout_accepted
  handle_logout st frame decodes now =
      if not decodes then (st, close frame.conn ∷ []) else elim frame.user_id [
        | none ↦ (st, close frame.conn ∷ [])
        | some gid ↦
            logout_accepted st frame gid now
              (accept_request st.sessions gid frame.session_id frame.seq frame.ack now config)
      ]

  -- `GatewayState::disconnect`: the connection of a session has closed.
  unfoldable pub handle_disconnect :
      GatewayState C P → ℤ → Option ℤ → ℕ → GatewayState C P × List (Effect C P R Q)
  handle_disconnect st session_id none now = (st, [])
  handle_disconnect st session_id (some gid) now =
      let (sessions, routes) = disconnect st.sessions gid session_id now in
      elim routes [
        | none ↦ (record st { sessions = sessions }, [])
        | some r ↦ (
          record { sessions = sessions; online_count = decrement st.online_count },
          logic_disconnect r.logic_id gid session_id ∷ clear_gate gid session_id ∷ [],
        )
      ]

  -- The connection that a kick closed, with the notice it was sent.
  kick_effects : Option (Option (C × Result P X)) → List (Effect C P R Q)
  kick_effects (some (some (conn, ok payload))) = send_shared conn payload ∷ close conn ∷ []
  kick_effects (some (some (conn, err _))) = close conn ∷ []
  kick_effects _ = []

  unfoldable pub kick_local :
      GatewayState C P → ℤ → ℤ → ℤ → Bytes → ℕ → GatewayState C P × List (Effect C P R Q)
  unfolding kick_count kick_effects
  kick_local st gid session_id code reason now =
      let (sessions, result) =
        kick net config st.sessions gid session_id (kick_ntf code reason) now in
      (
        record { sessions = sessions; online_count = kick_count result st.online_count },
        kick_effects result ++ (clear_gate gid session_id ∷ []),
      )

  -- The state, the effects, and the status and `kicked` of the response.
  unfoldable pub kick_session :
      GatewayState C P
      → ℤ
      → ℤ
      → ℤ
      → Bytes
      → ℕ
      → GatewayState C P × List (Effect C P R Q) × Status × Bool
  unfolding kick_count kick_effects
  kick_session st gid player_session code reason now =
      if leb_ℤ gid (pos 0) || leb_ℤ player_session (pos 0)
      then (st, [], error_status Code.invalid_argument "invalid kick target", false)
      else let (sessions, result) =
          kick net config st.sessions gid player_session (kick_ntf code reason) now in
        (
          record { sessions = sessions; online_count = kick_count result st.online_count },
          kick_effects result
              ++ (if is_some result then clear_gate gid player_session ∷ [] else []),
          ok_status,
          is_some result,
        )
