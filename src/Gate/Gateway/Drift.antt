-- ===== src/Gate/Gateway/Drift.antt =====
-- The counter of a gate when the critical sections of its handlers are interleaved: each change of the sessions
-- under their locks and each change of the counter is a step, and the steps come in any order.
mod Examples
use xkk.Common.{
  ℕ, ◌+◌, ◌-◌, ◌<◌, ◌≤◌, ◌^◌, ◌≡◌, Bool, false, none, some, List, [], ◌∷◌, if◌then◌else◌, eqb,
  is_some,
}
use xkk.Common.Int.{ℤ, pos, leb_ℤ}
use xkk.Common.Keys.{get, insert, remove, ◌==◌, int_key}
use xkk.Common.Keys.Totals.{Distinct}
use xkk.Protocol.Message
use xkk.Gate.Session.{
  SessionConfig, Routes, Net, ClientSession, active, encode, finish_encode, retain_message,
  drop_oldest,
}
use xkk.Gate.Sessions.{
  Players, disconnect, invalidate, prune_expired, install_login, complete_reconnect, accept_request,
  acknowledge, authorize_reconnect,
}
use xkk.Gate.Sessions.Counts.{online_players, became_online}
use xkk.Gate.Gateway.{increment, decrement}

-- `takes_conn` and `removes` are the two sections of a kick, and `invalidates` is that of a logout. `ghost_down`
-- and `ghost_up` are a disconnect or kick and a reconnect of a session that left the map after it was found.
-- A section that changes no connection is left out, as is one that finds no session.
pub data Section (C M : Type 0) : Type 0 where
  installs : ℤ → C → Routes → ℕ → Section C M
  resumes : ℤ → ℤ → C → ℕ → ℕ → ℕ → Section C M
  disconnects : ℤ → ℤ → ℕ → Section C M
  takes_conn : ℤ → ℤ → M → ℕ → Section C M
  removes : ℤ → Section C M
  invalidates : ℤ → ℤ → Section C M
  prunes : ℕ → Section C M
  ghost_down ghost_up counts_up counts_down : Section C M

-- `ups` and `downs` are the changes of the counter that handlers have still to make. `slips` counts what makes
-- the counter drift: a kick that removes a session which came back in between, a logout whose session was no
-- longer connected, a change of a session that left the map, and a count that was to go below 0.
pub record Gate (C P : Type 0) : Type 0 where
  pub sessions : Players C P
  pub online_count : ℤ
  pub ups : ℕ
  pub downs : ℕ
  pub slips : ℕ

abbrev pub one_if : Bool → ℕ
one_if b = if b then 1 else 0

module _ {C P M X : Type 0} (net : Net C P M X) (config : SessionConfig) where
  -- The first section of `kick`.
  unfoldable pub take_conn : Players C P → ℤ → ℤ → M → ℕ → Players C P × Bool
  unfolding active
  take_conn players gid session_id notice now = elim (get gid players) [
    | none ↦ (players, false)
    | some s ↦
        if s.session_id == session_id
        then (
          insert gid
              (if active s
                then (encode net (record s { conn = none }) Message.kick_ntf notice now config).0
                else s)
              players,
          active s,
        )
        else (players, false)
  ]

  abbrev pub moved : Gate C P → Players C P → ℕ → ℕ → ℕ → Gate C P
  moved g sessions up down slip = record g {
    sessions = sessions;
    ups = g.ups + up;
    downs = g.downs + down;
    slips = g.slips + slip;
  }

  unfoldable pub step : Gate C P → Section C M → Gate C P
  step g (installs gid conn routes client_seq) =
      let (sessions, became) = install_login net config g.sessions gid conn routes client_seq in
      moved g sessions (one_if became) 0 0
  step g (resumes gid previous conn client_seq ack now) =
      let (sessions, r) =
        complete_reconnect net config g.sessions gid previous conn client_seq ack now in
      moved g sessions (became_online r) 0 0
  step g (disconnects gid session_id now) =
      let (sessions, routes) = disconnect g.sessions gid session_id now in
      moved g sessions 0 (one_if (is_some routes)) 0
  step g (takes_conn gid session_id notice now) =
      let (sessions, was_active) = take_conn g.sessions gid session_id notice now in
      moved g sessions 0 (one_if was_active) 0
  step g (removes gid) =
      let sessions = remove gid g.sessions in
      moved g sessions 0 0 (online_players g.sessions - online_players sessions)
  step g (invalidates gid session_id) =
      let sessions = (invalidate g.sessions gid session_id).0 in
      moved g sessions 0 1 (1 - (online_players g.sessions - online_players sessions))
  step g (prunes now) = moved g (prune_expired g.sessions now config).0 0 0 0
  step g ghost_down = moved g g.sessions 0 1 1
  step g ghost_up = moved g g.sessions 1 0 1
  step g counts_up =
      if eqb g.ups 0
      then g
      else record g { online_count = increment g.online_count; ups = g.ups - 1 }
  step g counts_down = if eqb g.downs 0 then g else record g {
    online_count = decrement g.online_count;
    downs = g.downs - 1;
    slips = g.slips + one_if (leb_ℤ g.online_count (pos 0));
  }

  unfoldable pub run : Gate C P → List (Section C M) → Gate C P
  run g [] = g
  run g (s ∷ sections) = run (step g s) sections

-- The counter, with the changes that are still to come, differs from the number of connected players by at most
-- the number of slips.
pub record Drifts {C P : Type 0} (g : Gate C P) : Type 0 where
  pub distinct : Distinct g.sessions
  pub count : ℕ
  pub counted : g.online_count ≡ pos count
  pub above : online_players g.sessions + g.downs ≤ count + g.ups + g.slips
  pub below : count + g.ups ≤ online_players g.sessions + g.downs + g.slips

module _ {C P : Type 0} where
  -- Taking a session out takes at most one connected player away.
  abbrev Loses : Players C P → Players C P → Type 0
  Loses players t =
      (online_players t ≤ online_players players) × (online_players players ≤ online_players t + 1)

module _ {C P M X : Type 0} (net : Net C P M X) (config : SessionConfig) where
  taken : ClientSession C P → M → ℕ → ClientSession C P
  unfolding active
  taken s notice now =
      if active s
      then (encode net (record s { conn = none }) Message.kick_ntf notice now config).0
      else s

module _ {C P M X : Type 0} (net : Net C P M X) (config : SessionConfig) (g : Gate C P)
    (i : Drifts g) (room : i.count + g.ups + 2 < 2 ^ 31) where
  abbrev Grown : Gate C P → Type 0
  Grown g' = (i' : Drifts g') × (i'.count + g'.ups ≤ i.count + g.ups + 1)

  abbrev counted_down : Gate C P
  counted_down = record g {
    online_count = decrement g.online_count;
    downs = g.downs - 1;
    slips = g.slips + one_if (leb_ℤ g.online_count (pos 0));
  }
