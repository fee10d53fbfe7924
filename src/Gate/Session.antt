-- ===== src/Gate/Session.antt =====
-- service/gate/src/session.rs: `ClientSession`, the stream of one player. An `Instant` and a
-- `Duration` are counts of nanoseconds, and `duration_since` stops at 0; a sequence number is a u32.
-- A `VecDeque` is a list, its front first. A function that mutates `&mut self` returns the new
-- session beside its result; what it logs is left out.
pub mod Sequence
pub mod Rate
pub mod Outbox
pub mod Reconnects
pub mod Numbers
pub mod Replay
mod Examples
use mathlib.Core.List.{reverse}
use xkk.Common.{
  ℕ, suc, ◌+◌, ◌-◌, ◌*◌, ◌%◌, ◌^◌, Bool, true, false, not, ◌&&◌, ◌||◌, Option, none, some, List, [],
  ◌∷◌, ◌++◌, map, ltb, leb, eqb, if◌then◌else◌, is_some, is_some_and, length, filter, drop_while,
  take_while, Result, ok, err,
}
use xkk.Common.Int.{ℤ}
use xkk.Common.Keys.{◌==◌, int_key}
use xkk.Protocol.Message.{MsgId, as_u16, is_outbox_message}

pub record SessionConfig : Type 0 where
  pub outbox_messages : ℕ
  pub resume_ttl : ℕ
  pub reconnect_total : ℕ
  pub reconnect_window : ℕ
  pub reconnect_window_count : ℕ
  pub request_window : ℕ
  pub request_window_count : ℕ
  pub burst_window : ℕ
  pub burst_count : ℕ

-- `Duration::from_secs`
abbrev pub from_secs : ℕ → ℕ
from_secs n = n * 1_000_000_000

abbrev pub hard_limits : SessionConfig
hard_limits = record {
  outbox_messages = 256;
  resume_ttl = from_secs 60;
  reconnect_total = 10;
  reconnect_window = from_secs 60;
  reconnect_window_count = 5;
  request_window = from_secs 5;
  request_window_count = 15;
  burst_window = from_secs 1;
  burst_count = 8;
}

-- Whether the assertions of `validate` hold.
unfoldable pub validate : SessionConfig → Bool
validate c =
    ltb 0 c.outbox_messages
    && ltb 0 c.resume_ttl
    && ltb 0 c.reconnect_total
    && ltb 0 c.reconnect_window_count
    && leb c.reconnect_window_count c.reconnect_total
    && ltb 0 c.reconnect_window
    && (ltb 0 c.request_window_count && ltb 0 c.burst_count)
    && leb c.burst_count c.request_window_count
    && (ltb 0 c.request_window && ltb 0 c.burst_window)

pub record Routes : Type 0 where
  pub logic_id : ℤ
  pub public_id : ℤ

pub data RequestError : Type 0 where
  session_mismatch invalid_sequence rate_limited : RequestError

pub data ResumeError : Type 0 where
  missing expired session_mismatch outbox_gap rate_limited : ResumeError

pub record OutboxMessage (P : Type 0) : Type 0 where
  pub seq : ℕ
  pub sent_at : ℕ
  pub payload : P

-- `C` is the type of connections, and `P` that of encoded packets, which are shared by `Arc`.
pub record ClientSession (C P : Type 0) : Type 0 where
  pub session_id : ℤ
  pub conn : Option C
  pub routes : Routes
  pub server_seq : ℕ
  pub client_seq : ℕ
  pub outbox : List (OutboxMessage P)
  pub dropped_through : Option ℕ
  pub disconnected_at : Option ℕ
  pub reconnect_count : ℕ
  pub reconnect_times : List ℕ
  pub request_times : List ℕ

pub record ReconnectResult (P : Type 0) : Type 0 where
  pub replay : List P
  pub became_active : Bool

-- What a session takes from the crates xnet and xproto: the session id of a connection, the first
-- message id above the system's, and the encoding of a message under a head of the message id, the
-- sequence number and the acknowledgement.
pub record Net (C P M X : Type 0) : Type 0 where
  pub conn_session_id : C → ℤ
  pub system_msg_id_end : ℕ
  pub encode_message : ℕ → ℕ → ℕ → M → Result P X

-- `value.wrapping_sub(previous)` of two u32, and the half ring after `previous`.
unfoldable pub seq_after : ℕ → ℕ → Bool
seq_after value previous =
    let distance = (value + 2 ^ 32 - previous) % 2 ^ 32 in
    not (eqb distance 0) && ltb distance (2 ^ 31)

unfoldable pub seq_at_or_after : ℕ → ℕ → Bool
unfolding seq_after
seq_at_or_after value previous = eqb value previous || seq_after value previous

-- The loop of `prune_outbox` over the outbox and `dropped_through`.
unfoldable pub prune_from :
    {P : Type 0} → ℕ → ℕ → List (OutboxMessage P) → Option ℕ → List (OutboxMessage P) × Option ℕ
prune_from now ttl [] dropped = ([], dropped)
prune_from now ttl (m ∷ ms) dropped =
    if ltb ttl (now - m.sent_at) then prune_from now ttl ms (some m.seq) else (m ∷ ms, dropped)

module _ {C P : Type 0} where
  unfoldable pub active : ClientSession C P → Bool
  active s = is_some s.conn

  -- What `ClientSessions::disconnect` does to the session that it found.
  unfoldable pub detach : ClientSession C P → ℕ → ClientSession C P
  detach s now = record s { conn = none; disconnected_at = some now }

  unfoldable pub prune_outbox : ClientSession C P → ℕ → ℕ → ClientSession C P
  prune_outbox s now ttl =
      let (outbox, dropped) = prune_from now ttl s.outbox s.dropped_through in
      record s { outbox = outbox; dropped_through = dropped }

  unfoldable pub acknowledge_outbox : ClientSession C P → ℕ → ClientSession C P
  acknowledge_outbox s ack = record s {
    outbox = drop_while (λ m. not (seq_after m.seq ack)) s.outbox;
  }

  unfoldable pub accept_sequence :
      ClientSession C P → ℤ → ℕ → ℕ → ℕ → ℕ → ClientSession C P × Result (Unit {0}) RequestError
  unfolding active prune_outbox acknowledge_outbox
  accept_sequence s session_id seq ack now resume_ttl =
      if not (s.session_id == session_id) || not (active s)
      then (s, err RequestError.session_mismatch)
      else if not (seq_after seq s.client_seq)
      then (s, err invalid_sequence)
      else (
        acknowledge_outbox (prune_outbox (record s { client_seq = seq }) now resume_ttl) ack,
        ok tt,
      )

  unfoldable pub accept_rate : ClientSession C P → ℕ → SessionConfig → ClientSession C P × Bool
  accept_rate s now config =
      let times = drop_while (λ at. leb config.request_window (now - at)) s.request_times in
      let pruned : ClientSession C P = record s { request_times = times } in
      let burst = length (take_while (λ at. ltb (now - at) config.burst_window) (reverse times)) in
      if leb config.request_window_count (length times)
      then (pruned, false)
      else if leb config.burst_count burst
      then (pruned, false)
      else (record s { request_times = times ++ (now ∷ []) }, true)

  unfoldable pub limit_rate :
      SessionConfig
      → ℕ
      → ClientSession C P × Result (Unit {0}) RequestError
      → ClientSession C P × Result Routes RequestError
  unfolding accept_rate
  limit_rate config now (s, err e) = (s, err e)
  limit_rate config now (s, ok _) =
      let (s', accepted) = accept_rate s now config in
      if accepted then (s', ok s'.routes) else (s', err RequestError.rate_limited)

  unfoldable pub accept_request :
      ClientSession C P
      → ℤ
      → ℕ
      → ℕ
      → ℕ
      → SessionConfig
      → ClientSession C P × Result Routes RequestError
  unfolding accept_sequence limit_rate
  accept_request s session_id seq ack now config =
      limit_rate config now (accept_sequence s session_id seq ack now config.resume_ttl)

  -- The tests that `authorize_reconnect` makes after the outbox is pruned.
  unfoldable pub admit_reconnect :
      ClientSession C P → ℕ → ℕ → SessionConfig → ClientSession C P × Result Routes ResumeError
  admit_reconnect s ack now config =
      let times = drop_while (λ at. leb config.reconnect_window (now - at)) s.reconnect_times in
      if is_some_and s.dropped_through (λ dropped. not (seq_at_or_after ack dropped))
      then (s, err outbox_gap)
      else if leb config.reconnect_total s.reconnect_count
      then (s, err ResumeError.rate_limited)
      else if leb config.reconnect_window_count (length times)
      then (record s { reconnect_times = times }, err ResumeError.rate_limited)
      else (
        record s { reconnect_count = s.reconnect_count + 1; reconnect_times = times ++ (now ∷ []) },
        ok s.routes,
      )

  unfoldable pub authorize_reconnect :
      ClientSession C P
      → ℤ
      → ℕ
      → ℕ
      → ℕ
      → SessionConfig
      → ClientSession C P × Result Routes ResumeError
  unfolding prune_outbox admit_reconnect
  authorize_reconnect s previous_session client_seq ack now config =
      if not (s.session_id == previous_session)
      then (s, err ResumeError.session_mismatch)
      else if not (seq_after client_seq s.client_seq)
      then (s, err ResumeError.session_mismatch)
      else if is_some_and s.disconnected_at (λ at. ltb config.resume_ttl (now - at))
      then (s, err expired)
      else admit_reconnect (prune_outbox s now config.resume_ttl) ack now config

  unfoldable pub drop_oldest : ClientSession C P → List (OutboxMessage P) → ClientSession C P
  drop_oldest s [] = s
  drop_oldest s (m ∷ ms) = record s { outbox = ms; dropped_through = some m.seq }

  -- The outbox's part of `encode`: the oldest message leaves a full outbox.
  unfoldable pub retain_message : ClientSession C P → P → ℕ → SessionConfig → ClientSession C P
  unfolding drop_oldest
  retain_message s payload now config =
      let evicted =
        if eqb (length s.outbox) config.outbox_messages then drop_oldest s s.outbox else s in
      let message : OutboxMessage P = record {
        seq = s.server_seq;
        sent_at = now;
        payload = payload;
      } in
      record evicted { outbox = evicted.outbox ++ (message ∷ []) }

  -- `encode` once the message is encoded, or is not; `outbox` tells whether it is an outbox message.
  unfoldable pub finish_encode {ℓ} :
      {X : Type ℓ}
      → SessionConfig
      → Bool
      → ℕ
      → ClientSession C P
      → Result P X
      → ClientSession C P × Result P X
  unfolding prune_outbox
  finish_encode config outbox now s (err e) = (s, err e)
  finish_encode config outbox now s (ok payload) = (
    if outbox then retain_message (prune_outbox s now config.resume_ttl) payload now config else s,
    ok payload,
  )

module _ {C P M X : Type 0} (net : Net C P M X) where
  -- `ClientSession::new`
  unfoldable pub new : C → Routes → ℕ → ClientSession C P
  new conn routes client_seq = record {
    session_id = net.conn_session_id conn;
    conn = some conn;
    routes = routes;
    server_seq = 0;
    client_seq = client_seq;
    outbox = [];
    dropped_through = none;
    disconnected_at = none;
    reconnect_count = 0;
    reconnect_times = [];
    request_times = [];
  }

  -- What `complete_reconnect` does once the outbox is pruned and holds all that is asked for.
  unfoldable pub resume : ClientSession C P → C → ℕ → ℕ → ClientSession C P × ReconnectResult P
  unfolding active acknowledge_outbox
  resume s conn client_seq ack =
      let acknowledged = acknowledge_outbox s ack in
      let replay =
        map (λ (m : OutboxMessage P). m.payload)
          (filter (λ (m : OutboxMessage P). seq_after m.seq ack) acknowledged.outbox) in
      (
        record acknowledged {
          session_id = net.conn_session_id conn;
          conn = some conn;
          client_seq = client_seq;
          disconnected_at = none;
        },
        record { replay = replay; became_active = not (active acknowledged) },
      )

  unfoldable pub complete_reconnect :
      ClientSession C P
      → ℤ
      → C
      → ℕ
      → ℕ
      → ℕ
      → SessionConfig
      → ClientSession C P × Result (ReconnectResult P) ResumeError
  unfolding prune_outbox resume
  complete_reconnect s previous_session conn client_seq ack now config =
      let pruned = prune_outbox s now config.resume_ttl in
      let (resumed, result) = resume pruned conn client_seq ack in
      if not (s.session_id == previous_session)
      then (s, err ResumeError.session_mismatch)
      else if not (seq_after client_seq s.client_seq)
      then (s, err ResumeError.session_mismatch)
      else if is_some_and pruned.dropped_through (λ dropped. not (seq_at_or_after ack dropped))
      then (pruned, err outbox_gap)
      else (resumed, ok result)

  unfoldable pub encode :
      ClientSession C P → MsgId → M → ℕ → SessionConfig → ClientSession C P × Result P X
  unfolding finish_encode
  encode s msgid message now config =
      let counted = record s { server_seq = (s.server_seq + 1) % 2 ^ 32 } in
      finish_encode config (is_outbox_message net.system_msg_id_end (as_u16 msgid)) now counted
        (net.encode_message (as_u16 msgid) counted.server_seq s.client_seq message)
