-- ===== src/Gate/Gateway/Flows.antt =====
-- The counter `online_count` over the parts of a login, a reconnect, a logout and a forwarded request.
use xkk.Common.{
  ℕ, ◌+◌, ◌<◌, ◌^◌, ◌≡◌, refl, inl, inr, Bool, true, false, not, Option, none, some, List, arith,
  Result, ok, err, Bool-cases, Option-cases,
}
use xkk.Common.Int.{ℤ, pos}
use xkk.Common.Keys.{◌==◌, int_key}
use xkk.Common.Keys.Totals.{Distinct}
use xkk.Common.Bytes.{Bytes}
use xkk.Protocol.Status.{Status}
use xkk.Protocol.Code
use xkk.Protocol.Message.{MsgId, RouteTarget}
use xkk.Gate.Session.{SessionConfig, Net, Routes, RequestError}
use xkk.Gate.Sessions.{Players}
use xkk.Gate.Sessions.Counts.{
  online_players, kick-online, install_login-online, complete_reconnect-online, invalidate-online,
}
use xkk.Gate.Sessions.Steady.{
  accept_request-online, authorize_reconnect-online, send-online, send_keeps, accept_request_found,
}
use xkk.Gate.Gateway.{GatewayState, Frame, Reply, kick_session, handle_logout, logout_accepted}
use xkk.Gate.Gateway.Login.{
  PendingLogin, LogicReply, login_reply, login_accepted, login_saved, Verification,
}
use xkk.Gate.Gateway.Reconnect.{
  ReconnectReq, reconnect_request, reconnect_authorized, reconnect_reply, reconnected,
  reconnect_saved,
}
use xkk.Gate.Gateway.Forward.{forward_request, forward_accepted}
use xkk.Common.{◌||◌, ◌∙◌}
use xkk.Common.Int.{leb_ℤ}
use xkk.Common.Keys.{get}
use xkk.Cache.Online.{OnlineData}
use xkk.Protocol.Status.{ok_status}
use xkk.Protocol.Message
use xkk.Gate.Session.{ClientSession, active, ResumeError, ReconnectResult}
use xkk.Gate.Sessions.Counts.{became_online}
use xkk.Gate.Gateway.{logout_rsp}
use xkk.Gate.Gateway.Login.{logic_status, verify_online}
use xkk.Gate.Gateway.Reconnect.{invalid_reconnect, replay_all}
use xkk.Gate.Gateway.Online.{
  Counted, Kept, still, unchanged, lost, gained_if, send_bound-Kept, kick_local-Kept, kicked-Kept,
}

module _ {C P R X N : Type 0} (net : Net C P (Reply R) X) (config : SessionConfig)
    (backpressure : N → Bool) (deliver : P → Result (Unit {0}) N) (Q : Type 0)
    (st : GatewayState C P) (c : Counted st) (room : online_players st.sessions + 1 < 2 ^ 31) where
  pub kick_session-Kept :
      (gid id code : ℤ) (reason : Bytes) (now : ℕ)
      → Kept st (kick_session {Q = Q} net config backpressure deliver st gid id code reason now).0
  unfolding kick_session
  kick_session-Kept gid id code reason now =
      elim (Bool-cases (leb_ℤ gid (pos 0) || leb_ℤ id (pos 0))) [
        | inl e ↦ rw e (unchanged st c)
        | inr e ↦
            rw e (kicked-Kept st _ _ c room (kick-online net config st.sessions gid id _ now c.1))
      ]

  logout_accepted-Kept :
      (frame : Frame C) (gid : ℤ) (now : ℕ) (r : Players C P × Result Routes RequestError)
      → (online_players r.0 ≡ online_players st.sessions) × Distinct r.0
      → ((routes : Routes)
          → r.1 ≡ ok routes
          → (t : ClientSession C P) × (get gid r.0 ≡ some t)
            × (t.session_id ≡ frame.session_id)
            × (active t ≡ true))
      → Kept st (logout_accepted {Q = Q} net config backpressure deliver st frame gid now r).0
  unfolding logout_accepted active
  logout_accepted-Kept frame gid now (sessions, err RequestError.rate_limited) h found =
      send_bound-Kept net config backpressure deliver st (record st { sessions = sessions }) gid
        frame.session_id _ _ now (still st sessions c h)
  logout_accepted-Kept frame gid now (sessions, err _) h found = still st sessions c h
  logout_accepted-Kept frame gid now (sessions, ok routes) h found =
      let (s, there, same, connected) = found routes refl in
      let (t, e, kept) =
        send_keeps net config backpressure deliver sessions gid frame.session_id Message.logout_rsp
          (logout_rsp ok_status) now s there in
      let k =
        send-online net config backpressure deliver sessions gid frame.session_id Message.logout_rsp
          (logout_rsp ok_status) now h.1 in
      let gone =
        invalidate-online _ gid frame.session_id t k.1 e (kept.1 ∙ same)
          (ground (arith, kept.0, connected)) in
      lost st _ c room (omega (arith, gone.0, k.0, h.0), gone.1)

  pub handle_logout-Kept :
      (frame : Frame C) (decodes : Bool) (now : ℕ)
      → Kept st (handle_logout {Q = Q} net config backpressure deliver st frame decodes now).0
  unfolding handle_logout
  handle_logout-Kept frame false now = unchanged st c
  handle_logout-Kept frame true now = elim (Option-cases frame.user_id) [
    | inl e ↦ rw (e, handle_logout) (unchanged st c)
    | inr (gid, e) ↦
        rw (e, handle_logout)
          (logout_accepted-Kept frame gid now _
            (accept_request-online st.sessions gid frame.session_id frame.seq frame.ack now config
              c.1)
            λ routes h.
              accept_request_found st.sessions gid frame.session_id frame.seq frame.ack now config
                routes h)
  ]

  pub login_reply-Kept :
      (gate_id : ℤ) (frame : Frame C) (gid : ℤ) (pending : PendingLogin) (reply : Option LogicReply)
      (bound : Bool) (time : ℤ)
      → Kept st
          (login_reply {Q = Q} net config backpressure deliver gate_id st frame gid pending reply
            bound time).0
  unfolding login_reply login_accepted
  login_reply-Kept gate_id frame gid pending none bound time = unchanged st c
  login_reply-Kept gate_id frame gid pending (some reply) bound time =
      elim (Bool-cases
        (not ((logic_status reply.status "Logic login response has no status").code == Code.ok))) [
          | inl e ↦ rw e (unchanged st c)
          | inr e ↦ elim (Bool-cases (not bound)) [
            | inl f ↦ rw (e, f) (unchanged st c)
            | inr f ↦
                rw (e, f)
                  (gained_if st _ _ c room (
                    install_login-online net config st.sessions gid frame.conn pending.routes
                      frame.seq c.1))
          ]
        ]

  pub login_saved-Kept :
      (gate_id : ℤ) (frame : Frame C) (gid : ℤ) (routes : Routes) (reply : LogicReply)
      (saved : Bool) (reason : Bytes) (now : ℕ)
      → Kept st
          (login_saved {Q = Q} net config backpressure deliver gate_id st frame gid routes reply
            saved reason now).0
  unfolding login_saved
  login_saved-Kept gate_id frame gid routes reply false reason now =
      kick_local-Kept net config backpressure deliver Q st c room gid frame.session_id Code.internal
        reason now
  login_saved-Kept gate_id frame gid routes reply true reason now =
      send_bound-Kept net config backpressure deliver st st gid frame.session_id _ _ now
        (unchanged st c)

  forward_accepted-Kept :
      (make_error : Status → R) (frame : Frame C) (target : RouteTarget) (response_msgid : MsgId)
      (request : Q) (gid : ℤ) (now : ℕ) (r : Players C P × Result Routes RequestError)
      → (online_players r.0 ≡ online_players st.sessions) × Distinct r.0
      → Kept st
          (forward_accepted net config backpressure deliver make_error st frame target
            response_msgid request gid now r).0
  unfolding forward_accepted
  forward_accepted-Kept make_error frame target msgid request gid now
        (sessions, err RequestError.rate_limited) h =
      send_bound-Kept net config backpressure deliver st (record st { sessions = sessions }) gid
        frame.session_id _ _ now (still st sessions c h)
  forward_accepted-Kept make_error frame target msgid request gid now (sessions, err _) h =
      still st sessions c h
  forward_accepted-Kept make_error frame target msgid request gid now (sessions, ok routes) h =
      still st sessions c h

  pub forward_request-Kept :
      (make_error : Status → R) (frame : Frame C) (target : RouteTarget) (response_msgid : MsgId)
      (request : Q) (now : ℕ)
      → Kept st
          (forward_request net config backpressure deliver make_error st frame target response_msgid
            request now).0
  unfolding forward_request
  forward_request-Kept make_error frame target msgid request now =
      elim (Option-cases frame.user_id) [
        | inl e ↦ rw (e, forward_request) (unchanged st c)
        | inr (gid, e) ↦
            rw (e, forward_request)
              (forward_accepted-Kept make_error frame target msgid request gid now _ (
                accept_request-online st.sessions gid frame.session_id frame.seq frame.ack now
                  config c.1))
      ]

  reconnect_authorized-Kept :
      (gate_id : ℤ) (frame : Frame C) (request : ReconnectReq) (online : OnlineData)
      (r : Players C P × Result Routes ResumeError)
      → (online_players r.0 ≡ online_players st.sessions) × Distinct r.0
      → Kept st (reconnect_authorized {R = R} {Q = Q} config gate_id st frame request online r).0
  unfolding reconnect_authorized
  reconnect_authorized-Kept gate_id frame request online (sessions, err e) h = still st sessions c h
  reconnect_authorized-Kept gate_id frame request online (sessions, ok routes) h =
      still st sessions c h

  pub reconnect_request-Kept :
      (gate_id : ℤ) (frame : Frame C) (request : ReconnectReq) (v : Verification) (now : ℕ)
      → Kept st (reconnect_request {R = R} {Q = Q} config gate_id st frame request v now).0
  unfolding reconnect_request
  reconnect_request-Kept gate_id frame request v now =
      elim (Bool-cases (invalid_reconnect frame request)) [
        | inl e ↦ rw e (unchanged st c)
        | inr e ↦ elim (Option-cases (verify_online request.gid request.token v)) [
          | inl f ↦ rw (e, f, reconnect_request) (unchanged st c)
          | inr (online, f) ↦
              rw (e, f, reconnect_request)
                (reconnect_authorized-Kept gate_id frame request online _ (
                  authorize_reconnect-online st.sessions request.gid request.previous_session
                    frame.seq request.ack now config c.1))
        ]
      ]

  reconnected-Kept :
      (gate_id : ℤ) (frame : Frame C) (pending : PendingLogin) (time : ℤ)
      (r : Players C P × Result (ReconnectResult P) ResumeError)
      → (online_players r.0 ≡ online_players st.sessions + became_online r.1) × Distinct r.0
      → Kept st
          (reconnected {Q = Q} net config backpressure deliver gate_id st frame pending time r).0
  unfolding reconnected
  reconnected-Kept gate_id frame pending time (sessions, err e) h =
      still st sessions c (omega (arith, h.0), h.1)
  reconnected-Kept gate_id frame pending time (sessions, ok r) h =
      gained_if st sessions r.became_active c room h

  pub reconnect_reply-Kept :
      (gate_id : ℤ) (frame : Frame C) (request : ReconnectReq) (pending : PendingLogin)
      (reply : Option LogicReply) (bound : Bool) (time : ℤ) (now : ℕ)
      → Kept st
          (reconnect_reply {Q = Q} net config backpressure deliver gate_id st frame request pending
            reply bound time now).0
  unfolding reconnect_reply
  reconnect_reply-Kept gate_id frame request pending none bound time now = unchanged st c
  reconnect_reply-Kept gate_id frame request pending (some reply) bound time now =
      elim (Bool-cases (
        not
          ((logic_status reply.status "Logic reconnect response has no status").code == Code.ok))) [
            | inl e ↦ rw e (unchanged st c)
            | inr e ↦ elim (Bool-cases (not bound)) [
              | inl f ↦ rw (e, f) (unchanged st c)
              | inr f ↦
                  rw (e, f)
                    (reconnected-Kept gate_id frame pending time _ (
                      complete_reconnect-online net config st.sessions request.gid
                        request.previous_session frame.conn frame.seq request.ack now c.1))
            ]
          ]

  pub reconnect_saved-Kept :
      (gate_id : ℤ) (frame : Frame C) (gid : ℤ) (replay : List P) (saved : Bool)
      (failed full : Bytes) (now : ℕ)
      → Kept st
          (reconnect_saved {Q = Q} net config backpressure deliver gate_id st frame gid replay saved
            failed full now).0
  unfolding reconnect_saved
  reconnect_saved-Kept gate_id frame gid replay false failed full now =
      kick_local-Kept net config backpressure deliver Q st c room gid frame.session_id Code.internal
        failed now
  reconnect_saved-Kept gate_id frame gid replay true failed full now =
      elim (Bool-cases (not (replay_all deliver replay).1)) [
        | inl e ↦ rw e (
            kick_local-Kept net config backpressure deliver Q st c room gid frame.session_id
              Code.overloaded full now)
        | inr e ↦ rw e (
            send_bound-Kept net config backpressure deliver st st gid frame.session_id _ _ now
              (unchanged st c))
      ]
