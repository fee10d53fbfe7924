-- ===== src/Gate/Sessions/Counts.antt =====
-- The number of connected players, and what each function of the map does to it.
use xkk.Common.{
  ℕ, ◌+◌, ◌≡◌, refl, inl, inr, true, false, not, ◌||◌, Option, none, some, [], ◌∷◌, arith,
  if◌then◌else◌, is_some, Result, ok, err, Bool-cases, Option-cases,
}
use xkk.Common.Int.{ℤ, eqb_ℤ, eqb_ℤ_iff}
use xkk.Common.Keys.{get, int_key}
use xkk.Common.Keys.Totals.{
  Distinct, insert-Distinct, remove-Distinct, total, total-insert, total-remove,
}
use xkk.Gate.Session.{
  SessionConfig, Routes, RequestError, ResumeError, ReconnectResult, Net, ClientSession, new,
  active, detach,
}
use xkk.Gate.Session
use xkk.Gate.Sessions.{
  Players, with_session, disconnect, invalidate, prune_expired, keep, install_login,
  complete_reconnect, kick,
}

-- 1 for a connected session.
abbrev pub online : {C P : Type 0} → ClientSession C P → ℕ
online s = if active s then 1 else 0

-- The number of connected players.
abbrev pub online_players : {C P : Type 0} → Players C P → ℕ
online_players players = total online players

-- A session that was kicked while it was connected counts once.
abbrev pub kicked {ℓ} : {A : Type ℓ} → Option (Option A) → ℕ
kicked none = 0
kicked (some none) = 0
kicked (some (some a)) = 1

-- 1 for a reconnect that connects a player who was offline.
abbrev pub became_online : {P : Type 0} → Result (ReconnectResult P) ResumeError → ℕ
became_online (err e) = 0
became_online (ok r) = if r.became_active then 1 else 0

module _ {C P : Type 0} where
  -- The session keeps its connection.
  abbrev pub Steady : ClientSession C P → ClientSession C P → Type 0
  Steady s t = t.conn ≡ s.conn

  pub with_session-online {ℓ κ} :
      {A : Type ℓ} {E : Type κ} (players : Players C P) (gid : ℤ) (missing : E)
      (body : ClientSession C P → ClientSession C P × Result A E)
      → ((s : ClientSession C P) → Steady s (body s).0)
      → Distinct players
      → let t = (with_session players gid missing body).0 in
        (online_players t ≡ online_players players) × Distinct t
  unfolding with_session active
  with_session-online players gid missing body steady d = elim (Option-cases (get gid players)) [
    | inl e ↦ rw (e, with_session) (refl, d)
    | inr (s, e) ↦
        rw (e, with_session)
          (
            ground (arith, total-insert online gid (body s).0 players, steady s),
            insert-Distinct gid (body s).0 players d,
          )
  ]

  pub disconnect-online :
      (players : Players C P) (gid session_id : ℤ) (now : ℕ)
      → Distinct players
      → let (t, r) = disconnect players gid session_id now in
        (online_players t + (if is_some r then 1 else 0) ≡ online_players players) × Distinct t
  unfolding disconnect active
  disconnect-online players gid id now d = elim (Option-cases (get gid players)) [
    | inl e ↦ rw (e, disconnect) (omega arith, d)
    | inr (s, e) ↦ elim (Bool-cases (not (eqb_ℤ s.session_id id) || not (active s))) [
      | inl f ↦ rw (e, disconnect, f) (omega arith, d)
      | inr f ↦
          rw (e, disconnect, f)
            (
              ground (arith, total-insert online gid (detach s now) players),
              insert-Distinct gid (detach s now) players d,
            )
    ]
  ]

  pub invalidate-online :
      (players : Players C P) (gid session_id : ℤ) (s : ClientSession C P)
      → Distinct players
      → get gid players ≡ some s
      → s.session_id ≡ session_id
      → active s ≡ true
      → let t = (invalidate players gid session_id).0 in
        (online_players t + 1 ≡ online_players players) × Distinct t
  unfolding invalidate active
  invalidate-online players gid id s d e same a =
      rw (e, invalidate)
        (rw ((eqb_ℤ_iff s.session_id id).1 same)
          (ground (arith, total-remove online gid players), remove-Distinct gid players d))

  keep_prune_fresh :
      (players : Players C P) (gid : ℤ) (now : ℕ) (config : SessionConfig)
      → is_some (get gid players) ≡ false
      → is_some (get gid (prune_expired players now config).0) ≡ false
  unfolding prune_expired get
  keep_prune_fresh [] gid now config h = h
  keep_prune_fresh ((j, s) ∷ players) gid now config h = elim (Bool-cases (keep config now s)) [
    | inl e ↦ rw e (ground (arith, keep_prune_fresh players gid now config))
    | inr e ↦ rw e (ground (arith, keep_prune_fresh players gid now config))
  ]

  pub prune_expired-online :
      (players : Players C P) (now : ℕ) (config : SessionConfig)
      → Distinct players
      → let t = (prune_expired players now config).0 in
        (online_players t ≡ online_players players) × Distinct t
  unfolding prune_expired total
  prune_expired-online [] now config d = (refl, tt)
  prune_expired-online ((gid, s) ∷ players) now config d =
      let (same, d') = prune_expired-online players now config d.1 in
      elim (Bool-cases (keep config now s)) [
        | inl e ↦ rw e (omega (arith, same), (keep_prune_fresh players gid now config d.0, d'))
        | inr e ↦ rw e (ground (arith, same), d')
      ]

module _ {C P M X : Type 0} (net : Net C P M X) (config : SessionConfig) where
  pub install_login-online :
      (players : Players C P) (gid : ℤ) (conn : C) (routes : Routes) (client_seq : ℕ)
      → Distinct players
      → let (t, became_active) = install_login net config players gid conn routes client_seq in
        (online_players t ≡ online_players players + (if became_active then 1 else 0)) × Distinct t
  unfolding install_login active
  install_login-online players gid conn routes client_seq d = (
    ground (arith, total-insert online gid (new net conn routes client_seq) players),
    insert-Distinct gid (new net conn routes client_seq) players d,
  )

  resumed-online :
      (s : ClientSession C P) (previous_session : ℤ) (conn : C) (client_seq ack now : ℕ)
      → let (t, r) =
          Session.complete_reconnect net s previous_session conn client_seq ack now config in
        online t ≡ online s + became_online r
  unfolding Session.complete_reconnect active
  resumed-online s previous_session conn client_seq ack now = ground arith

  pub complete_reconnect-online :
      (players : Players C P) (gid previous_session : ℤ) (conn : C) (client_seq ack now : ℕ)
      → Distinct players
      → let (t, r) =
          complete_reconnect net config players gid previous_session conn client_seq ack now in
        (online_players t ≡ online_players players + became_online r) × Distinct t
  unfolding complete_reconnect active
  complete_reconnect-online players gid prev conn seq ack now d =
      elim (Option-cases (get gid players)) [
        | inl e ↦ rw (e, with_session) (omega arith, d)
        | inr (s, e) ↦
            let t = (Session.complete_reconnect net s prev conn seq ack now config).0 in
            rw (e, with_session)
              (
                ground (
                  arith,
                  total-insert online gid t players,
                  resumed-online s prev conn seq ack now,
                ),
                insert-Distinct gid t players d,
              )
      ]

  pub kick-online :
      (players : Players C P) (gid session_id : ℤ) (notice : M) (now : ℕ)
      → Distinct players
      → let (t, r) = kick net config players gid session_id notice now in
        (online_players t + kicked r ≡ online_players players) × Distinct t
  unfolding kick active
  kick-online players gid id notice now d = elim (Option-cases (get gid players)) [
    | inl e ↦ rw (e, kick) (omega arith, d)
    | inr (s, e) ↦ elim (Bool-cases (eqb_ℤ s.session_id id)) [
      | inl f ↦
          rw (e, kick, f)
            (ground (arith, total-remove online gid players), remove-Distinct gid players d)
      | inr f ↦ rw (e, kick, f) (omega arith, d)
    ]
  ]
