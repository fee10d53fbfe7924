-- ===== src/Gate/Session/Reconnects.antt =====
-- How often a session lets itself be resumed, over all events of its life.
use xkk.Common.{
  refl, ◌%◌, ◌^◌, ℕ, suc, ◌+◌, ◌≤◌, ◌<◌, ◌≡◌, Bool, true, false, List, [], ◌∷◌, arith,
  if◌then◌else◌, is_ok, Result, ok, err,
}
use xkk.Common.Int.{ℤ}
use xkk.Protocol.Message.{MsgId, as_u16, is_outbox_message}
use xkk.Gate.Session.{
  SessionConfig, ClientSession, Net, admit_reconnect, authorize_reconnect, prune_outbox, encode,
  finish_encode, retain_message, drop_oldest, accept_sequence, accept_request, limit_rate,
  accept_rate, complete_reconnect, resume, detach,
}
use xkk.Gate.Session.Replay.{
  Event, sent, requested, acknowledged, authorized, reconnected, disconnected, Stream, step,
}

-- The event is an authorization to resume that is granted.
unfoldable pub is_granted : {C P M : Type 0} → SessionConfig → ClientSession C P → Event C M → Bool
is_granted config s (authorized id seq ack now) =
    is_ok (authorize_reconnect s id seq ack now config).1
is_granted config s _ = false

module _ {C P M X : Type 0} (net : Net C P M X) (config : SessionConfig) where
  -- The number of authorizations that are granted in the events.
  unfoldable pub granted : Stream C P → List (Event C M) → ℕ
  granted st [] = 0
  granted st (e ∷ es) =
      let rest = granted (step net config st e) es in
      if is_granted config st.session e then suc rest else rest

module _ {C P : Type 0} (config : SessionConfig) where
  admit_counts :
      (s : ClientSession C P) (ack now : ℕ)
      → let (t, r) = admit_reconnect s ack now config in
        (t.reconnect_count ≡ (if is_ok r then suc s.reconnect_count else s.reconnect_count))
        × (is_ok r ≡ true → s.reconnect_count < config.reconnect_total)
  unfolding admit_reconnect
  admit_counts s ack now = (ground arith, λ h. ground arith)

  authorize_counts :
      (s : ClientSession C P) (id : ℤ) (seq ack now : ℕ)
      → let (t, r) = authorize_reconnect s id seq ack now config in
        (t.reconnect_count ≡ (if is_ok r then suc s.reconnect_count else s.reconnect_count))
        × (is_ok r ≡ true → s.reconnect_count < config.reconnect_total)
  unfolding authorize_reconnect
  authorize_counts s id seq ack now = (
    ground (arith, admit_counts (prune_outbox s now config.resume_ttl) ack now),
    λ h. ground (arith, admit_counts (prune_outbox s now config.resume_ttl) ack now),
  )

  accept_sequence_counts :
      (s : ClientSession C P) (id : ℤ) (seq ack now : ℕ)
      → (accept_sequence s id seq ack now config.resume_ttl).0.reconnect_count ≡ s.reconnect_count
  unfolding accept_sequence
  accept_sequence_counts s id seq ack now = ground arith

  accept_rate_counts :
      (s : ClientSession C P) (now : ℕ)
      → (accept_rate s now config).0.reconnect_count ≡ s.reconnect_count
  unfolding accept_rate
  accept_rate_counts s now = ground arith

  accept_request_counts :
      (s : ClientSession C P) (id : ℤ) (seq ack now : ℕ)
      → (accept_request s id seq ack now config).0.reconnect_count ≡ s.reconnect_count
  unfolding accept_request limit_rate
  accept_request_counts s id seq ack now =
      let a = accept_sequence_counts s id seq ack now in
      let r = accept_rate_counts (accept_sequence s id seq ack now config.resume_ttl).0 now in
      ground (arith, a, r)

  finish_encode_counts :
      {X : Type 0} (outbox : Bool) (now : ℕ) (s : ClientSession C P) (r : Result P X)
      → (finish_encode config outbox now s r).0.reconnect_count ≡ s.reconnect_count
  unfolding finish_encode retain_message drop_oldest
  finish_encode_counts outbox now s (err e) = refl
  finish_encode_counts outbox now s (ok payload) = ground arith

module _ {C P M X : Type 0} (net : Net C P M X) (config : SessionConfig) where
  encode_counts :
      (s : ClientSession C P) (msgid : MsgId) (message : M) (now : ℕ)
      → (encode net s msgid message now config).0.reconnect_count ≡ s.reconnect_count
  unfolding encode
  encode_counts s msgid message now =
      let counted = record s { server_seq = (s.server_seq + 1) % 2 ^ 32 } in
      finish_encode_counts config (is_outbox_message net.system_msg_id_end (as_u16 msgid)) now
        counted (net.encode_message (as_u16 msgid) counted.server_seq s.client_seq message)

  complete_counts :
      (s : ClientSession C P) (id : ℤ) (conn : C) (seq ack now : ℕ)
      → (complete_reconnect net s id conn seq ack now config).0.reconnect_count ≡ s.reconnect_count
  unfolding complete_reconnect resume
  complete_counts s id conn seq ack now = ground arith

  step_counts :
      (st : Stream C P) (e : Event C M)
      → ((step net config st e).session.reconnect_count ≡ (
          if is_granted config st.session e
          then suc st.session.reconnect_count
          else st.session.reconnect_count))
        × (is_granted config st.session e ≡ true
            → st.session.reconnect_count < config.reconnect_total)
  unfolding step is_granted encode detach
  step_counts st (sent msgid message now) =
      (encode_counts st.session msgid message now, λ h. absurd (cc))
  step_counts st (requested id seq ack now) =
      (accept_request_counts config st.session id seq ack now, λ h. absurd (cc))
  step_counts st (acknowledged id seq ack now) =
      (accept_sequence_counts config st.session id seq ack now, λ h. absurd (cc))
  step_counts st (authorized id seq ack now) = authorize_counts config st.session id seq ack now
  step_counts st (reconnected id conn seq ack now) =
      (complete_counts st.session id conn seq ack now, λ h. absurd (cc))
  step_counts st (disconnected now) = (refl, λ h. absurd (cc))

  -- Whatever happens to a session, messages, requests, acknowledgements, disconnects and completed
  -- reconnects among it, in any order: it grants at most `reconnect_total` authorizations to resume,
  -- less those that it has counted before.
  pub granted_bounded :
      (st : Stream C P) (events : List (Event C M))
      → st.session.reconnect_count ≤ config.reconnect_total
      → st.session.reconnect_count + granted net config st events ≤ config.reconnect_total
  unfolding granted
  granted_bounded st [] h = omega arith
  granted_bounded st (e ∷ es) h =
      let (counted, room) = step_counts st e in
      ground (arith, counted, room, granted_bounded (step net config st e) es)
