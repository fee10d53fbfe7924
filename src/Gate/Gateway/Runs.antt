-- ===== src/Gate/Gateway/Runs.antt =====
-- A gate over any sequence of the parts of its handlers and of its pruning, and its counter. A part ends
-- before the next one begins: where critical sections of two parts are interleaved, the counter can drift (Drift).
use xkk.Common.{ℕ, ◌+◌, ◌<◌, ◌^◌, refl, Bool, Option, List, [], ◌∷◌, arith, length, Result}
use xkk.Common.Int.{ℤ, pos}
use xkk.Common.Keys.Totals.{total}
use xkk.Common.Bytes.{Bytes}
use xkk.Protocol.Status.{Status}
use xkk.Protocol.Message.{MsgId, RouteTarget}
use xkk.Gate.Session.{SessionConfig, Net, Routes}
use xkk.Gate.Sessions.{prune_expired}
use xkk.Gate.Sessions.Counts.{online_players, prune_expired-online}
use xkk.Gate.Gateway.{
  GatewayState, Frame, Reply, kick_session, push_mail, handle_ack, handle_ping, handle_logout,
  handle_disconnect,
}
use xkk.Gate.Gateway.Login.{PendingLogin, LogicReply, login_reply, login_saved, Verification}
use xkk.Gate.Gateway.Reconnect.{ReconnectReq, reconnect_request, reconnect_reply, reconnect_saved}
use xkk.Gate.Gateway.Forward.{forward_request, forward_response}
use xkk.Gate.Gateway.Online.{
  Counted, Kept, still, unchanged, send_bound-Kept, push_mail-Kept, handle_ack-Kept,
  handle_ping-Kept, handle_disconnect-Kept,
}
use xkk.Gate.Gateway.Flows.{
  kick_session-Kept, handle_logout-Kept, login_reply-Kept, login_saved-Kept, forward_request-Kept,
  reconnect_request-Kept, reconnect_reply-Kept, reconnect_saved-Kept,
}

-- A part of a handler with the answers that it got.
pub data Action (C P R Q : Type 0) : Type 0 where
  ack : Frame C → Bool → ℕ → Action C P R Q
  ping : Frame C → Option ℕ → ℕ → ℕ → Action C P R Q
  login_replied : Frame C → ℤ → PendingLogin → Option LogicReply → Bool → ℤ → Action C P R Q
  login_stored : Frame C → ℤ → Routes → LogicReply → Bool → Bytes → ℕ → Action C P R Q
  reconnect_asked : Frame C → ReconnectReq → Verification → ℕ → Action C P R Q
  reconnect_replied :
      Frame C → ReconnectReq → PendingLogin → Option LogicReply → Bool → ℤ → ℕ → Action C P R Q
  reconnect_stored : Frame C → ℤ → List P → Bool → Bytes → Bytes → ℕ → Action C P R Q
  logout : Frame C → Bool → ℕ → Action C P R Q
  disconnected : ℤ → Option ℤ → ℕ → Action C P R Q
  kick_asked : ℤ → ℤ → ℤ → Bytes → ℕ → Action C P R Q
  business_asked : Frame C → RouteTarget → MsgId → Q → ℕ → Action C P R Q
  business_replied : Frame C → ℤ → MsgId → Option R → ℕ → Action C P R Q
  mail_pushed : ℤ → Option R → ℕ → Action C P R Q
  pruned : ℕ → Action C P R Q

-- A gate that has just started.
abbrev pub started : {C P : Type 0} → GatewayState C P
started = record { sessions = []; online_count = pos 0 }

module _ {C P R Q X N : Type 0} (net : Net C P (Reply R) X) (config : SessionConfig)
    (backpressure : N → Bool) (deliver : P → Result (Unit {0}) N) (gate_id : ℤ)
    (make_error : Status → R) where
  unfoldable pub step : GatewayState C P → Action C P R Q → GatewayState C P
  step st (ack frame decodes now) =
      (handle_ack {Q = Q} net config backpressure deliver st frame decodes now).0
  step st (ping frame t time now) =
      (handle_ping {Q = Q} net config backpressure deliver st frame t time now).0
  step st (login_replied frame gid pending reply bound time) =
      (login_reply {Q = Q} net config backpressure deliver gate_id st frame gid pending reply bound
        time).0
  step st (login_stored frame gid routes reply saved reason now) =
      (login_saved {Q = Q} net config backpressure deliver gate_id st frame gid routes reply saved
        reason now).0
  step st (reconnect_asked frame request v now) =
      (reconnect_request {R = R} {Q = Q} config gate_id st frame request v now).0
  step st (reconnect_replied frame request pending reply bound time now) =
      (reconnect_reply {Q = Q} net config backpressure deliver gate_id st frame request pending
        reply bound time now).0
  step st (reconnect_stored frame gid replay saved failed full now) =
      (reconnect_saved {Q = Q} net config backpressure deliver gate_id st frame gid replay saved
        failed full now).0
  step st (logout frame decodes now) =
      (handle_logout {Q = Q} net config backpressure deliver st frame decodes now).0
  step st (disconnected id user now) =
      (handle_disconnect {Q = Q} net config backpressure deliver st id user now).0
  step st (kick_asked gid id code reason now) =
      (kick_session {Q = Q} net config backpressure deliver st gid id code reason now).0
  step st (business_asked frame target msgid request now) =
      (forward_request net config backpressure deliver make_error st frame target msgid request
        now).0
  step st (business_replied frame gid msgid response now) =
      forward_response net config backpressure deliver make_error st frame gid msgid response now
  step st (mail_pushed gid mail now) = push_mail net config backpressure deliver st gid mail now
  step st (pruned now) = record st { sessions = (prune_expired st.sessions now config).0 }

  unfoldable pub run : GatewayState C P → List (Action C P R Q) → GatewayState C P
  unfolding step
  run st [] = st
  run st (a ∷ actions) = run (step st a) actions

  step-Kept :
      (st : GatewayState C P) (a : Action C P R Q)
      → Counted st
      → online_players st.sessions + 1 < 2 ^ 31
      → Kept st (step st a)
  unfolding step forward_response
  step-Kept st (ack frame decodes now) c room =
      handle_ack-Kept net config backpressure deliver Q st c room frame decodes now
  step-Kept st (ping frame t time now) c room =
      handle_ping-Kept net config backpressure deliver Q st c room frame t time now
  step-Kept st (login_replied frame gid pending reply bound time) c room =
      login_reply-Kept net config backpressure deliver Q st c room gate_id frame gid pending reply
        bound time
  step-Kept st (login_stored frame gid routes reply saved reason now) c room =
      login_saved-Kept net config backpressure deliver Q st c room gate_id frame gid routes reply
        saved reason now
  step-Kept st (reconnect_asked frame request v now) c room =
      reconnect_request-Kept net config backpressure deliver Q st c room gate_id frame request v now
  step-Kept st (reconnect_replied frame request pending reply bound time now) c room =
      reconnect_reply-Kept net config backpressure deliver Q st c room gate_id frame request pending
        reply bound time now
  step-Kept st (reconnect_stored frame gid replay saved failed full now) c room =
      reconnect_saved-Kept net config backpressure deliver Q st c room gate_id frame gid replay
        saved failed full now
  step-Kept st (logout frame decodes now) c room =
      handle_logout-Kept net config backpressure deliver Q st c room frame decodes now
  step-Kept st (disconnected id user now) c room =
      handle_disconnect-Kept net config backpressure deliver Q st c room id user now
  step-Kept st (kick_asked gid id code reason now) c room =
      kick_session-Kept net config backpressure deliver Q st c room gid id code reason now
  step-Kept st (business_asked frame target msgid request now) c room =
      forward_request-Kept net config backpressure deliver Q st c room make_error frame target msgid
        request now
  step-Kept st (business_replied frame gid msgid response now) c room =
      send_bound-Kept net config backpressure deliver st st gid frame.session_id msgid _ now
        (unchanged st c)
  step-Kept st (mail_pushed gid mail now) c room =
      push_mail-Kept net config backpressure deliver st gid mail now c
  step-Kept st (pruned now) c room = still st _ c (prune_expired-online st.sessions now config c.1)

  run-Counted :
      (st : GatewayState C P) (actions : List (Action C P R Q))
      → Counted st
      → online_players st.sessions + length actions < 2 ^ 31
      → Counted (run st actions)
  unfolding run
  run-Counted st [] c room = c
  run-Counted st (a ∷ actions) c room =
      let (c', grown) = step-Kept st a c (omega (arith, room)) in
      run-Counted (step st a) actions c' (omega (arith, room, grown))

  -- After any sequence of fewer than 2^31 parts of handlers, each of which ends before the next one begins, in
  -- any order of the parts and with any answers of the other services, the counter of a gate is the number of its connected players, and no player has
  -- two sessions.
  pub online_count_is_exact :
      (actions : List (Action C P R Q)) → length actions < 2 ^ 31 → Counted (run started actions)
  unfolding total
  online_count_is_exact actions h = run-Counted started actions (refl, tt) (omega (arith, h))
