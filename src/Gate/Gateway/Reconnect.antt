-- ===== src/Gate/Gateway/Reconnect.antt =====
-- `handle_reconnect` of service/gate/src/gateway.rs: up to the call of Logic, from its response to the
-- save of the online state, and after that.
use xkk.Common.{
  ℕ, Bool, true, false, not, map, ◌||◌, Option, none, some, List, [], ◌∷◌, ◌++◌, is_empty, length,
  ltb, eqb, if◌then◌else◌, is_some, Result, ok, err,
}
use xkk.Common.Int.{ℤ, pos, leb_ℤ}
use xkk.Common.Keys.{◌==◌, int_key}
use xkk.Common.Bytes.{Bytes}
use xkk.Cache.Online.{OnlineData}
use xkk.Protocol.Status.{Status, ok_status, error_status}
use xkk.Protocol.Code
use xkk.Protocol.Message
use xkk.Gate.Session.{SessionConfig, Routes, ResumeError, ReconnectResult, Net}
use xkk.Gate.Sessions.{Players, authorize_reconnect, complete_reconnect}
use xkk.Gate.Gateway.{
  GatewayState, Frame, Reply, reconnect_rsp, Effect, close, send_shared, increment,
  reject_reconnect, send_bound, kick_local,
}
use xkk.Gate.Gateway.Login.{LogicReply, Verification, verify_online, logic_status, PendingLogin}

pub record ReconnectReq : Type 0 where
  pub gid : ℤ
  pub previous_session : ℤ
  pub token : Bytes
  pub device_id : Bytes
  pub ack : ℕ

unfoldable pub invalid_reconnect : {C : Type 0} → Frame C → ReconnectReq → Bool
invalid_reconnect frame request =
    is_some frame.user_id
    || leb_ℤ request.gid (pos 0)
    || leb_ℤ request.previous_session (pos 0)
    || is_empty request.token
    || ltb (length request.device_id) 8
    || not (eqb request.ack frame.ack)
    || eqb frame.seq 0

resume_status : ResumeError → Status
resume_status ResumeError.rate_limited = error_status Code.rate_limited "reconnect rate exceeded"
resume_status _ = error_status Code.resume_expired "resume state expired"

-- The online state that a reconnect saves.
unfoldable pub online_after_reconnect : OnlineData → ℤ → Routes → ℤ → ℤ → OnlineData
online_after_reconnect online gate_id routes session_id login_time = record online {
  session = session_id;
  login_time = login_time;
  logout_time = pos 0;
  public_id = routes.public_id;
  gate_id = gate_id;
}

module _ {C P R Q : Type 0} (config : SessionConfig) (gate_id : ℤ) where
  unfoldable pub reconnect_authorized :
      GatewayState C P
      → Frame C
      → ReconnectReq
      → OnlineData
      → Players C P × Result Routes ResumeError
      → GatewayState C P × Result PendingLogin (List (Effect C P R Q))
  unfolding resume_status
  reconnect_authorized st frame request online (sessions, err e) =
      (record st { sessions = sessions }, err (reject_reconnect frame (resume_status e)))
  reconnect_authorized st frame request online (sessions, ok routes) = (
    record st { sessions = sessions },
    if not (online.logic_id == routes.logic_id)
        then err
            (reject_reconnect frame (error_status Code.resume_expired "Logic ownership changed"))
        else ok (record {
          online = online;
          routes = routes;
          call = record {
            gid = request.gid;
            gate_id = gate_id;
            player_session = frame.session_id;
            device_id = request.device_id;
            reconnect = true;
          };
        }),
  )

  unfoldable pub reconnect_request :
      GatewayState C P
      → Frame C
      → ReconnectReq
      → Verification
      → ℕ
      → GatewayState C P × Result PendingLogin (List (Effect C P R Q))
  unfolding reconnect_authorized
  reconnect_request st frame request v now =
      if invalid_reconnect frame request
      then (
        st,
        err (
            reject_reconnect frame
              (error_status Code.invalid_argument "invalid reconnect request")),
      )
      else elim (verify_online request.gid request.token v) [
        | none ↦ (
          st,
          err (
              reject_reconnect frame
                (error_status Code.unauthenticated "token verification failed")),
        )
        | some online ↦ reconnect_authorized st frame request online (
            authorize_reconnect st.sessions request.gid request.previous_session frame.seq
              request.ack now config)
      ]

-- The packets that are sent before the first that the connection refuses, and whether none was.
unfoldable pub replay_all : {P N : Type 0} → (P → Result (Unit {0}) N) → List P → List P × Bool
replay_all deliver [] = ([], true)
replay_all deliver (payload ∷ payloads) =
    let (sent, all_sent) = replay_all deliver payloads in
    elim (deliver payload) [ ok _ ↦ (payload ∷ sent, all_sent) | err _ ↦ ([], false) ]

module _ {C P R Q X N : Type 0} (net : Net C P (Reply R) X) (config : SessionConfig)
    (backpressure : N → Bool) (deliver : P → Result (Unit {0}) N) (gate_id : ℤ) where
  unfoldable pub reconnected :
      GatewayState C P
      → Frame C
      → PendingLogin
      → ℤ
      → Players C P × Result (ReconnectResult P) ResumeError
      → GatewayState C P × Result (OnlineData × List P) (List (Effect C P R Q))
  unfolding online_after_reconnect
  reconnected st frame pending login_time (sessions, err _) =
      (record st { sessions = sessions }, err (close frame.conn ∷ []))
  reconnected st frame pending login_time (sessions, ok reconnect) = (
    record {
      sessions = sessions;
      online_count = if reconnect.became_active then increment st.online_count else st.online_count;
    },
    ok (
      online_after_reconnect pending.online gate_id pending.routes frame.session_id login_time,
      reconnect.replay,
    ),
  )

  -- The result is the online state to save and the packets to replay.
  unfoldable pub reconnect_reply :
      GatewayState C P
      → Frame C
      → ReconnectReq
      → PendingLogin
      → Option LogicReply
      → Bool
      → ℤ
      → ℕ
      → GatewayState C P × Result (OnlineData × List P) (List (Effect C P R Q))
  unfolding reconnected
  reconnect_reply st frame request pending none bound login_time now = (
    st,
    err (
        reject_reconnect frame
          (error_status Code.temporarily_unavailable "Logic reconnect failed")),
  )
  reconnect_reply st frame request pending (some reply) bound login_time now =
      let status = logic_status reply.status "Logic reconnect response has no status" in
      if not (status.code == Code.ok)
      then (st, err (reject_reconnect frame status))
      else if not bound
      then (st, err (close frame.conn ∷ []))
      else reconnected st frame pending login_time (
          complete_reconnect net config st.sessions request.gid request.previous_session frame.conn
            frame.seq request.ack now)

  unfoldable pub reconnect_saved :
      GatewayState C P
      → Frame C
      → ℤ
      → List P
      → Bool
      → Bytes
      → Bytes
      → ℕ
      → GatewayState C P × List (Effect C P R Q)
  unfolding replay_all
  reconnect_saved st frame gid replay saved save_failed queue_full now =
      let (sent, all_sent) = replay_all deliver replay in
      let share : P → Effect C P R Q = send_shared frame.conn in
      let shared = map share sent in
      if not saved
      then kick_local net config backpressure deliver st gid frame.session_id Code.internal
          save_failed now
      else if not all_sent
      then (let (st', effects) =
            kick_local net config backpressure deliver st gid frame.session_id Code.overloaded
              queue_full now in
          (st', shared ++ effects))
      else (
        send_bound net config backpressure deliver st gid frame.session_id Message.reconnect_rsp
            (reconnect_rsp ok_status (length replay) frame.session_id) now,
        shared,
      )
