-- ===== src/Gate/Sessions.antt =====
-- service/gate/src/session.rs: `ClientSessions`, the sessions of all players of a gate by their gid.
-- Each function runs as a whole: where the code finds a session under the lock of the map and then takes the
-- lock of the session, or changes the session and then the map (`kick`), nothing else comes between. The
-- connections it closes are part of its result.
pub mod Counts
pub mod Steady
use xkk.Common.{
  ℕ, suc, ◌+◌, ◌-◌, Bool, true, false, not, ◌&&◌, ◌||◌, Option, none, some, List, [], ◌∷◌, ◌++◌,
  leb, if◌then◌else◌, is_some_and, length, Result, ok, err,
}
use xkk.Common.Int.{ℤ}
use xkk.Common.Keys.{Map, get, insert, remove, ◌==◌, int_key}
use xkk.Protocol.Message.{MsgId}
use xkk.Protocol.Message
use xkk.Gate.Session.{
  SessionConfig, Routes, RequestError, ResumeError, ReconnectResult, Net, ClientSession, new,
  active, detach,
}
use xkk.Gate.Session

abbrev pub Players : Type 0 → Type 0 → Type 0
Players C P = Map ℤ (ClientSession C P)

pub record StoreStats : Type 0 where
  pub players : ℕ
  pub active : ℕ
  pub offline : ℕ
  pub outbox_messages : ℕ

pub record ClosingSession : Type 0 where
  pub gid : ℤ
  pub session_id : ℤ
  pub routes : Routes

-- `X` is the error of the encoding, and `N` that of the network.
pub data SendError (X N : Type 0) : Type 0 where
  session_mismatch queue_full : SendError X N
  transport : N → SendError X N
  protocol : X → SendError X N

module _ {C P : Type 0} where
  -- The session of a player, found, locked, and changed in place; `missing` where there is none.
  unfoldable pub with_session {ℓ κ} :
      {A : Type ℓ} {E : Type κ}
      → Players C P
      → ℤ
      → E
      → (ClientSession C P → ClientSession C P × Result A E)
      → Players C P × Result A E
  with_session players gid missing body = elim (get gid players) [
    | none ↦ (players, err missing)
    | some session ↦ let (session', result) = body session in (insert gid session' players, result)
  ]

  unfoldable pub authorize_reconnect :
      Players C P → ℤ → ℤ → ℕ → ℕ → ℕ → SessionConfig → Players C P × Result Routes ResumeError
  unfolding with_session
  authorize_reconnect players gid previous_session client_seq ack now config =
      with_session players gid ResumeError.missing
        λ s. Session.authorize_reconnect s previous_session client_seq ack now config

  unfoldable pub accept_request :
      Players C P → ℤ → ℤ → ℕ → ℕ → ℕ → SessionConfig → Players C P × Result Routes RequestError
  unfolding with_session
  accept_request players gid session_id seq ack now config =
      with_session players gid RequestError.session_mismatch
        λ s. Session.accept_request s session_id seq ack now config

  unfoldable pub acknowledge :
      Players C P → ℤ → ℤ → ℕ → ℕ → ℕ → SessionConfig → Players C P × Result (Unit {0}) RequestError
  unfolding with_session
  acknowledge players gid session_id seq ack now config =
      with_session players gid RequestError.session_mismatch
        λ s. Session.accept_sequence s session_id seq ack now config.resume_ttl

  unfoldable pub current_session : Players C P → ℤ → Option ℤ
  unfolding active
  current_session players gid = elim (get gid players) [
    | none ↦ none
    | some s ↦ if active s then some s.session_id else none
  ]

  unfoldable pub disconnect : Players C P → ℤ → ℤ → ℕ → Players C P × Option Routes
  unfolding active detach
  disconnect players gid session_id now = elim (get gid players) [
    | none ↦ (players, none)
    | some s ↦
        if not (s.session_id == session_id) || not (active s)
        then (players, none)
        else (insert gid (detach s now) players, some s.routes)
  ]

  unfoldable pub invalidate : Players C P → ℤ → ℤ → Players C P × Bool
  invalidate players gid session_id = elim (get gid players) [
    | none ↦ (players, false)
    | some s ↦ if s.session_id == session_id then (remove gid players, true) else (players, false)
  ]

  -- The test of `prune_expired`: the session is kept.
  unfoldable pub keep : SessionConfig → ℕ → ClientSession C P → Bool
  unfolding active
  keep config now s =
      active s || is_some_and s.disconnected_at (λ at. leb (now - at) config.resume_ttl)

  -- The entries that stay, and the number of those that go.
  unfoldable pub prune_expired : Players C P → ℕ → SessionConfig → Players C P × ℕ
  unfolding keep
  prune_expired [] now config = ([], 0)
  prune_expired ((gid, s) ∷ players) now config =
      let (kept, removed) = prune_expired players now config in
      if keep config now s then ((gid, s) ∷ kept, removed) else (kept, removed + 1)

  unfoldable pub stats : Players C P → StoreStats
  unfolding active
  stats [] = record { players = 0; active = 0; offline = 0; outbox_messages = 0 }
  stats ((gid, s) ∷ players) =
      let rest = stats players in
      record {
        players = rest.players + 1;
        active = if active s then rest.active + 1 else rest.active;
        offline = if active s then rest.offline else rest.offline + 1;
        outbox_messages = rest.outbox_messages + length s.outbox;
      }

  -- All sessions leave the map, and their connections are closed.
  unfoldable pub drain : Players C P → Players C P × List ClosingSession × List C
  drain [] = ([], [], [])
  drain ((gid, s) ∷ players) =
      let (left, closing, closed) = drain players in
      (
        left,
        record { gid = gid; session_id = s.session_id; routes = s.routes } ∷ closing,
        (elim s.conn [ none ↦ closed | some conn ↦ conn ∷ closed ]),
      )

module _ {C P M X : Type 0} (net : Net C P M X) (config : SessionConfig) where
  unfoldable pub install_login : Players C P → ℤ → C → Routes → ℕ → Players C P × Bool
  unfolding active new
  install_login players gid conn routes client_seq =
      let previous_active = is_some_and (get gid players) active in
      (insert gid (new net conn routes client_seq) players, not previous_active)

  unfoldable pub complete_reconnect :
      Players C P → ℤ → ℤ → C → ℕ → ℕ → ℕ → Players C P × Result (ReconnectResult P) ResumeError
  unfolding with_session
  complete_reconnect players gid previous_session conn client_seq ack now =
      with_session players gid ResumeError.missing
        λ s. Session.complete_reconnect net s previous_session conn client_seq ack now config

  module _ {N : Type 0} (is_backpressure : N → Bool) where
    send_failure : N → SendError X N
    send_failure e = if is_backpressure e then queue_full else transport e

    -- The packet is handed to the connection, which may refuse it.
    deliver :
        (P → Result (Unit {0}) N)
        → ClientSession C P × Result P X
        → ClientSession C P × Result (Unit {0}) (SendError X N)
    unfolding send_failure
    deliver send_shared (s, err x) = (s, err (protocol x))
    deliver send_shared (s, ok payload) =
        (s, elim (send_shared payload) [ ok _ ↦ ok tt | err e ↦ err (send_failure e) ])

    unfoldable pub send :
        (P → Result (Unit {0}) N)
        → Players C P
        → ℤ
        → ℤ
        → MsgId
        → M
        → ℕ
        → Players C P × Result (Unit {0}) (SendError X N)
    unfolding with_session active deliver
    send send_shared players gid session_id msgid message now =
        with_session players gid SendError.session_mismatch λ s.
          if not (s.session_id == session_id) || not (active s)
          then (s, err SendError.session_mismatch)
          else deliver send_shared (Session.encode net s msgid message now config)

  -- What a kick leaves: the players, and for a session that was found the connection that was
  -- closed with the packet of the notice that it was sent first.
  unfoldable pub kick : Players C P → ℤ → ℤ → M → ℕ → Players C P × Option (Option (C × Result P X))
  kick players gid session_id notice now = elim (get gid players) [
    | none ↦ (players, none)
    | some s ↦
        if s.session_id == session_id
        then (
          remove gid players,
          some (elim s.conn [
            | none ↦ none
            | some conn ↦ some (
              conn,
              (Session.encode net (record s { conn = none }) Message.kick_ntf notice now config).1,
            )
          ]),
        )
        else (players, none)
  ]
