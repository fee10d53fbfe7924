-- ===== src/Gate/Gateway/Online.antt =====
-- The counter `online_count` of a gate over everything that its handlers do, in any order. A part of a
-- handler, from one call of another service to the next, is one step.
use xkk.Common.{
  ℕ, ◌+◌, ◌<◌, ◌≤◌, ◌^◌, ◌≡◌, inl, inr, Bool, true, false, Option, none, some, arith, if◌then◌else◌,
  Result, ok, err, Option-cases,
}
use xkk.Common.Int.{ℤ, pos, eqb_ℤ, ◌+ℤ◌, ◌-ℤ◌}
use xkk.Common.Keys.{int_key}
use xkk.Common.Keys.Totals.{Distinct}
use xkk.Common.Bytes.{Bytes}
use xkk.Protocol.Message.{MsgId}
use xkk.Gate.Session.{SessionConfig, Net, RequestError}
use xkk.Gate.Sessions.{Players, disconnect, current_session}
use xkk.Gate.Sessions.Counts.{online_players, kicked, disconnect-online, kick-online}
use xkk.Gate.Sessions.Steady.{acknowledge-online, send-online}
use xkk.Gate.Gateway.{
  GatewayState, Frame, Reply, increment, decrement, send_bound, kick_count, kick_local, push_mail,
  handle_ack, handle_ping, ping_bound, handle_disconnect,
}

-- The counter is the number of connected players, of whom no player has two sessions.
abbrev pub Counted : {C P : Type 0} → GatewayState C P → Type 0
Counted st = (st.online_count ≡ pos (online_players st.sessions)) × Distinct st.sessions

pub increment_pos : (n : ℕ) → n + 1 < 2 ^ 31 → increment (pos n) ≡ pos (n + 1)
unfolding increment ◌+ℤ◌ eqb_ℤ
increment_pos n h = ground arith

pub decrement_pos : (n : ℕ) → n + 1 < 2 ^ 31 → decrement (pos (n + 1)) ≡ pos n
unfolding decrement ◌-ℤ◌ eqb_ℤ
decrement_pos n h = ground arith

-- The counter still counts, and at most one more player is connected.
abbrev pub Kept : {C P : Type 0} → GatewayState C P → GatewayState C P → Type 0
Kept st st' = Counted st' × (online_players st'.sessions ≤ online_players st.sessions + 1)

-- A change of the sessions that connects and disconnects nobody.
pub still :
    {C P : Type 0} (st : GatewayState C P) (sessions : Players C P)
    → Counted st
    → (online_players sessions ≡ online_players st.sessions) × Distinct sessions
    → Kept st (record st { sessions = sessions })
still st sessions c h = rw (c.0) ((ground (arith, h.0), h.1), omega (arith, h.0))

pub unchanged : {C P : Type 0} (st : GatewayState C P) → Counted st → Kept st st
unchanged st c = (c, omega arith)

-- One player is disconnected, and the counter goes down.
pub lost :
    {C P : Type 0} (st : GatewayState C P) (sessions : Players C P)
    → Counted st
    → online_players st.sessions + 1 < 2 ^ 31
    → (online_players sessions + 1 ≡ online_players st.sessions) × Distinct sessions
    → Kept st (record { sessions = sessions; online_count = decrement st.online_count })
lost st sessions c room h = (
  (rw (c.0, ← h.0) (decrement_pos (online_players sessions) (omega (arith, room, h.0))), h.1),
  omega (arith, h.0),
)

-- One player is connected, and the counter goes up.
gained :
    {C P : Type 0} (st : GatewayState C P) (sessions : Players C P)
    → Counted st
    → online_players st.sessions + 1 < 2 ^ 31
    → (online_players sessions ≡ online_players st.sessions + 1) × Distinct sessions
    → Kept st (record { sessions = sessions; online_count = increment st.online_count })
gained st sessions c room h =
    ((rw (c.0, h.0) (increment_pos (online_players st.sessions) room), h.1), omega (arith, h.0))

pub gained_if :
    {C P : Type 0} (st : GatewayState C P) (sessions : Players C P) (became_active : Bool)
    → Counted st
    → online_players st.sessions + 1 < 2 ^ 31
    → (online_players sessions ≡ online_players st.sessions + (if became_active then 1 else 0))
      × Distinct sessions
    → Kept st (record {
      sessions = sessions;
      online_count = if became_active then increment st.online_count else st.online_count;
    })
gained_if st sessions true c room h = gained st sessions c room h
gained_if st sessions false c room h = still st sessions c (omega (arith, h.0), h.1)

pub kicked-Kept :
    {C P X : Type 0} (st : GatewayState C P) (sessions : Players C P)
    (result : Option (Option (C × Result P X)))
    → Counted st
    → online_players st.sessions + 1 < 2 ^ 31
    → (online_players sessions + kicked result ≡ online_players st.sessions) × Distinct sessions
    → Kept st (record { sessions = sessions; online_count = kick_count result st.online_count })
unfolding kick_count
kicked-Kept st sessions none c room h = still st sessions c (omega (arith, h.0), h.1)
kicked-Kept st sessions (some none) c room h = still st sessions c (omega (arith, h.0), h.1)
kicked-Kept st sessions (some (some a)) c room h = lost st sessions c room h

module _ {C P R X N : Type 0} (net : Net C P (Reply R) X) (config : SessionConfig)
    (backpressure : N → Bool) (deliver : P → Result (Unit {0}) N) where
  pub send_bound-Kept :
      (st st' : GatewayState C P) (gid id : ℤ) (msgid : MsgId) (message : Reply R) (now : ℕ)
      → Kept st st'
      → Kept st (send_bound net config backpressure deliver st' gid id msgid message now)
  send_bound-Kept st st' gid id msgid message now h =
      let k =
        send-online net config backpressure deliver st'.sessions gid id msgid message now h.0.1 in
      ((ground (arith, h.0.0, k.0), k.1), omega (arith, k.0, h.1))

  pub push_mail-Kept :
      (st : GatewayState C P) (gid : ℤ) (mail : Option R) (now : ℕ)
      → Counted st
      → Kept st (push_mail net config backpressure deliver st gid mail now)
  unfolding push_mail
  push_mail-Kept st gid none now c = unchanged st c
  push_mail-Kept st gid (some mail) now c = elim (Option-cases (current_session st.sessions gid)) [
    | inl e ↦ rw (e, push_mail) (unchanged st c)
    | inr (id, e) ↦ rw (e, push_mail) (send_bound-Kept st st gid id _ _ now (unchanged st c))
  ]

  module _ (Q : Type 0) (st : GatewayState C P) (c : Counted st)
      (room : online_players st.sessions + 1 < 2 ^ 31) where
    pub handle_ack-Kept :
        (frame : Frame C) (decodes : Bool) (now : ℕ)
        → Kept st (handle_ack {Q = Q} net config backpressure deliver st frame decodes now).0
    unfolding handle_ack
    handle_ack-Kept frame false now = unchanged st c
    handle_ack-Kept frame true now = elim (Option-cases frame.user_id) [
      | inl e ↦ rw (e, handle_ack) (unchanged st c)
      | inr (gid, e) ↦
          rw (e, handle_ack)
            (still st _ c (
              acknowledge-online st.sessions gid frame.session_id frame.seq frame.ack now config
                c.1))
    ]

    ping_bound-Kept :
        (frame : Frame C) (gid : ℤ) (response : Reply R) (now : ℕ)
        (r : Players C P × Result (Unit {0}) RequestError)
        → (online_players r.0 ≡ online_players st.sessions) × Distinct r.0
        → Kept st (ping_bound {Q = Q} net config backpressure deliver st frame gid response now r).0
    unfolding ping_bound
    ping_bound-Kept frame gid response now (sessions, err e) h = still st sessions c h
    ping_bound-Kept frame gid response now (sessions, ok u) h =
        send_bound-Kept st (record st { sessions = sessions }) gid frame.session_id _ response now
          (still st sessions c h)

    pub handle_ping-Kept :
        (frame : Frame C) (request : Option ℕ) (time now : ℕ)
        → Kept st (handle_ping {Q = Q} net config backpressure deliver st frame request time now).0
    unfolding handle_ping
    handle_ping-Kept frame none time now = unchanged st c
    handle_ping-Kept frame (some t) time now = elim (Option-cases frame.user_id) [
      | inl e ↦ rw (e, handle_ping) (unchanged st c)
      | inr (gid, e) ↦
          rw (e, handle_ping)
            (ping_bound-Kept frame gid _ now _ (
              acknowledge-online st.sessions gid frame.session_id frame.seq frame.ack now config
                c.1))
    ]

    pub handle_disconnect-Kept :
        (id : ℤ) (user : Option ℤ) (now : ℕ)
        → Kept st (handle_disconnect {Q = Q} net config backpressure deliver st id user now).0
    unfolding handle_disconnect
    handle_disconnect-Kept id none now = unchanged st c
    handle_disconnect-Kept id (some gid) now =
        let k = disconnect-online st.sessions gid id now c.1 in
        elim (Option-cases (disconnect st.sessions gid id now).1) [
          | inl e ↦
              rw (e, handle_disconnect)
                (still st _ c (let k' = rw e at k.0 in omega (arith, k'), k.1))
          | inr (r, e) ↦
              rw (e, handle_disconnect)
                (lost st _ c room (let k' = rw e at k.0 in omega (arith, k'), k.1))
        ]

    pub kick_local-Kept :
        (gid id code : ℤ) (reason : Bytes) (now : ℕ)
        → Kept st (kick_local {Q = Q} net config backpressure deliver st gid id code reason now).0
    unfolding kick_local
    kick_local-Kept gid id code reason now =
        kicked-Kept st _ _ c room (kick-online net config st.sessions gid id _ now c.1)
