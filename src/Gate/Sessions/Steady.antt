-- ===== src/Gate/Sessions/Steady.antt =====
-- The functions of a session that neither connect nor disconnect it, and what the map keeps of a
-- session through a send.
use xkk.Common.{
  ℕ, ◌≡◌, refl, ◌∙◌, inl, inr, Bool, true, false, not, ◌||◌, some, List, [], ◌∷◌, arith,
  if◌then◌else◌, length, eqb, Result, ok, err, Bool-cases, Option-cases,
}
use xkk.Common.Int.{ℤ, eqb_ℤ, eqb_ℤ_iff, eqb_ℤ_refl}
use xkk.Common.Keys.{get, get-insert, int_key}
use xkk.Common.Keys.Totals.{Distinct}
use xkk.Protocol.Message.{MsgId}
use xkk.Gate.Session.{
  SessionConfig, Routes, RequestError, ResumeError, Net, ClientSession, OutboxMessage, active,
  prune_outbox, accept_rate, accept_sequence, limit_rate, admit_reconnect, retain_message,
  drop_oldest, finish_encode, encode,
}
use xkk.Gate.Session
use xkk.Gate.Sessions.{
  Players, SendError, with_session, accept_request, acknowledge, authorize_reconnect, send, deliver,
}
use xkk.Gate.Sessions.Counts.{online_players, with_session-online}

-- The session keeps its connection and its id.
abbrev pub Same : {C P : Type 0} → ClientSession C P → ClientSession C P → Type 0
Same s t = (t.conn ≡ s.conn) × (t.session_id ≡ s.session_id)

module _ {C P : Type 0} where
  accept_sequence-Same :
      (s : ClientSession C P) (id : ℤ) (seq ack now ttl : ℕ)
      → Same s (accept_sequence s id seq ack now ttl).0
  unfolding accept_sequence
  accept_sequence-Same s id seq ack now ttl = (ground arith, ground arith)

  accept_rate-Same :
      (s : ClientSession C P) (now : ℕ) (config : SessionConfig)
      → Same s (accept_rate s now config).0
  unfolding accept_rate
  accept_rate-Same s now config = (ground arith, ground arith)

  limit_rate-Same :
      (config : SessionConfig) (now : ℕ) (t : ClientSession C P)
      (r : ClientSession C P × Result (Unit {0}) RequestError)
      → Same t r.0
      → Same t (limit_rate config now r).0
  unfolding limit_rate
  limit_rate-Same config now t (s, err e) h = h
  limit_rate-Same config now t (s, ok u) h = elim (Bool-cases (accept_rate s now config).1) [
    | inl e ↦ rw e (let k = accept_rate-Same s now config in (k.0 ∙ h.0, k.1 ∙ h.1))
    | inr e ↦ rw e (let k = accept_rate-Same s now config in (k.0 ∙ h.0, k.1 ∙ h.1))
  ]

  accept_request-Same :
      (s : ClientSession C P) (id : ℤ) (seq ack now : ℕ) (config : SessionConfig)
      → Same s (Session.accept_request s id seq ack now config).0
  unfolding Session.accept_request
  accept_request-Same s id seq ack now config =
      limit_rate-Same config now s (accept_sequence s id seq ack now config.resume_ttl)
        (accept_sequence-Same s id seq ack now config.resume_ttl)

  admit_reconnect-Same :
      (s : ClientSession C P) (ack now : ℕ) (config : SessionConfig)
      → Same s (admit_reconnect s ack now config).0
  unfolding admit_reconnect
  admit_reconnect-Same s ack now config = (ground arith, ground arith)

  authorize_reconnect-Same :
      (s : ClientSession C P) (id : ℤ) (seq ack now : ℕ) (config : SessionConfig)
      → Same s (Session.authorize_reconnect s id seq ack now config).0
  unfolding Session.authorize_reconnect prune_outbox
  authorize_reconnect-Same s id seq ack now config =
      let k = admit_reconnect-Same (prune_outbox s now config.resume_ttl) ack now config in
      (ground (arith, k.0), ground (arith, k.1))

  drop_oldest-Same :
      (s : ClientSession C P) (ms : List (OutboxMessage P)) → Same s (drop_oldest s ms)
  unfolding drop_oldest
  drop_oldest-Same s [] = (refl, refl)
  drop_oldest-Same s (m ∷ ms) = (refl, refl)

  retain_message-Same :
      (s : ClientSession C P) (payload : P) (now : ℕ) (config : SessionConfig)
      → Same s (retain_message s payload now config)
  unfolding retain_message
  retain_message-Same s payload now config =
      elim (Bool-cases (eqb (length s.outbox) config.outbox_messages)) [
        | inl e ↦ rw e (drop_oldest-Same s s.outbox)
        | inr e ↦ rw e (refl, refl)
      ]

  pub finish_encode-Same :
      {X : Type 0} (config : SessionConfig) (outbox : Bool) (now : ℕ) (s : ClientSession C P)
      (r : Result P X)
      → Same s (finish_encode config outbox now s r).0
  unfolding finish_encode
  finish_encode-Same config outbox now s (err e) = (refl, refl)
  finish_encode-Same config true now s (ok payload) =
      retain_message-Same (prune_outbox s now config.resume_ttl) payload now config
  finish_encode-Same config false now s (ok payload) = (refl, refl)

  pub acknowledge-online :
      (players : Players C P) (gid id : ℤ) (seq ack now : ℕ) (config : SessionConfig)
      → Distinct players
      → let t = (acknowledge players gid id seq ack now config).0 in
        (online_players t ≡ online_players players) × Distinct t
  unfolding acknowledge
  acknowledge-online players gid id seq ack now config =
      with_session-online players gid RequestError.session_mismatch
        (λ s. accept_sequence s id seq ack now config.resume_ttl)
        λ s. (accept_sequence-Same s id seq ack now config.resume_ttl).0

  pub accept_request-online :
      (players : Players C P) (gid id : ℤ) (seq ack now : ℕ) (config : SessionConfig)
      → Distinct players
      → let t = (accept_request players gid id seq ack now config).0 in
        (online_players t ≡ online_players players) × Distinct t
  unfolding accept_request
  accept_request-online players gid id seq ack now config =
      with_session-online players gid RequestError.session_mismatch
        (λ s. Session.accept_request s id seq ack now config)
        λ s. (accept_request-Same s id seq ack now config).0

  pub authorize_reconnect-online :
      (players : Players C P) (gid id : ℤ) (seq ack now : ℕ) (config : SessionConfig)
      → Distinct players
      → let t = (authorize_reconnect players gid id seq ack now config).0 in
        (online_players t ≡ online_players players) × Distinct t
  unfolding authorize_reconnect
  authorize_reconnect-online players gid id seq ack now config =
      with_session-online players gid ResumeError.missing
        (λ s. Session.authorize_reconnect s id seq ack now config)
        λ s. (authorize_reconnect-Same s id seq ack now config).0

module _ {C P M X N : Type 0} (net : Net C P M X) (config : SessionConfig) (backpressure : N → Bool)
    (send_shared : P → Result (Unit {0}) N) where
  deliver-Same :
      (t : ClientSession C P) (r : ClientSession C P × Result P X)
      → Same t r.0
      → Same t (deliver net config backpressure send_shared r).0
  unfolding deliver
  deliver-Same t (s, err x) h = h
  deliver-Same t (s, ok payload) h = h

  abbrev sending :
      ℤ → MsgId → M → ℕ → ClientSession C P → ClientSession C P × Result (Unit {0}) (SendError X N)
  sending id msgid message now s =
      if not (eqb_ℤ s.session_id id) || not (active s)
      then (s, err SendError.session_mismatch)
      else deliver net config backpressure send_shared (encode net s msgid message now config)

  sending-Same :
      (id : ℤ) (msgid : MsgId) (message : M) (now : ℕ) (s : ClientSession C P)
      → Same s (sending id msgid message now s).0
  unfolding encode
  sending-Same id msgid message now s =
      elim (Bool-cases (not (eqb_ℤ s.session_id id) || not (active s))) [
        | inl e ↦ rw e (refl, refl)
        | inr e ↦ rw e (
            deliver-Same s (encode net s msgid message now config)
              (finish_encode-Same config _ now _ _))
      ]

  pub send-online :
      (players : Players C P) (gid id : ℤ) (msgid : MsgId) (message : M) (now : ℕ)
      → Distinct players
      → let t = (send net config backpressure send_shared players gid id msgid message now).0 in
        (online_players t ≡ online_players players) × Distinct t
  unfolding send
  send-online players gid id msgid message now =
      with_session-online players gid SendError.session_mismatch (sending id msgid message now)
        λ s. (sending-Same id msgid message now s).0

  -- A session is still there after a send to it.
  pub send_keeps :
      (players : Players C P) (gid id : ℤ) (msgid : MsgId) (message : M) (now : ℕ)
      (s : ClientSession C P)
      → get gid players ≡ some s
      → (t : ClientSession C P) × (get gid
            (send net config backpressure send_shared players gid id msgid message now).0
          ≡ some t)
        × Same s t
  unfolding send with_session
  send_keeps players gid id msgid message now s e = (
    (sending id msgid message now s).0,
    rw
        (
          e,
          with_session,
          get-insert gid gid (sending id msgid message now s).0 players,
          eqb_ℤ_refl gid,
        )
        refl,
    sending-Same id msgid message now s,
  )

-- A request that is accepted is one of the connected session of that id.
pub accept_request_found :
    {C P : Type 0} (players : Players C P) (gid id : ℤ) (seq ack now : ℕ) (config : SessionConfig)
    (routes : Routes)
    → (accept_request players gid id seq ack now config).1 ≡ ok routes
    → (t : ClientSession C P) × (get gid (accept_request players gid id seq ack now config).0
        ≡ some t)
      × (t.session_id ≡ id)
      × (active t ≡ true)
unfolding accept_request with_session Session.accept_request accept_sequence limit_rate active
accept_request_found players gid id seq ack now config routes h =
    elim (Option-cases (get gid players)) [
      | inl e ↦ absurd (let h' = rw (e, with_session) at h in cc)
      | inr (s, e) ↦ elim (Bool-cases (not (eqb_ℤ s.session_id id) || not (active s))) [
        | inl f ↦ absurd (let h' = rw (e, with_session, f, limit_rate) at h in cc)
        | inr f ↦
            let t = (Session.accept_request s id seq ack now config).0 in
            let k = accept_request-Same s id seq ack now config in
            (
              t,
              rw (e, with_session, get-insert gid gid t players, eqb_ℤ_refl gid) refl,
              k.1 ∙ ground (arith, eqb_ℤ_iff s.session_id id),
              ground (arith, k.0),
            )
      ]
    ]
