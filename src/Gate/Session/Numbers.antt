-- ===== src/Gate/Session/Numbers.antt =====
-- The numbers that a session takes from its client, over the events of its life.
use xkk.Common.{ℕ, ◌≤◌, ◌<◌, ◌^◌, ◌≡◌, Bool, ◌+◌, ◌%◌, true, List, [], ◌∷◌, arith, ok, err, Result}
use xkk.Common.Int.{ℤ}
use xkk.Protocol.Message.{MsgId, as_u16, is_outbox_message}
use xkk.Gate.Session.{
  SessionConfig, ClientSession, Net, seq_after, admit_reconnect, authorize_reconnect, encode,
  finish_encode, retain_message, drop_oldest, accept_sequence, accept_request, limit_rate,
  complete_reconnect, resume, detach,
}
use xkk.Gate.Session.Outbox.{half_ring}
use xkk.Gate.Session.Sequence.{IsTaken, accept_request_takes, seq_after-ltb, accept_rate_keeps}
use xkk.Gate.Session.Replay.{
  Event, sent, requested, acknowledged, authorized, reconnected, disconnected, Stream, step, run,
}

-- The numbers that the client sends stay below 2^31.
abbrev pub Numbered : {C M : Type 0} → List (Event C M) → Type 0
Numbered [] = Unit {0}
Numbered (requested id seq ack now ∷ es) = (seq < half_ring) × Numbered es
Numbered (acknowledged id seq ack now ∷ es) = (seq < half_ring) × Numbered es
Numbered (reconnected id conn seq ack now ∷ es) = (seq < half_ring) × Numbered es
Numbered (_ ∷ es) = Numbered es

module _ {C P : Type 0} (config : SessionConfig) (least : ℕ) where
  -- The session has taken the number `least` or a later one below 2^31.
  abbrev IsPast : ClientSession C P → Type 0
  IsPast s = (least ≤ s.client_seq) × (s.client_seq < half_ring)

  later_past :
      (s : ClientSession C P) (seq : ℕ)
      → IsPast s
      → seq < half_ring
      → seq_after seq s.client_seq ≡ true
      → least ≤ seq
  later_past s seq p b h = ground (arith, seq_after-ltb seq s.client_seq b p.1)

  accept_sequence-IsPast :
      (s : ClientSession C P) (id : ℤ) (seq ack now : ℕ)
      → IsPast s
      → seq < half_ring
      → IsPast (accept_sequence s id seq ack now config.resume_ttl).0
  unfolding accept_sequence
  accept_sequence-IsPast s id seq ack now p b = ground (arith, later_past s seq p b)

  limit_rate-IsPast :
      (now : ℕ) (x : ClientSession C P × Result (Unit {0}) _)
      → IsPast x.0
      → IsPast (limit_rate config now x).0
  unfolding limit_rate
  limit_rate-IsPast now (s, err e) p = p
  limit_rate-IsPast now (s, ok _) p = ground (arith, accept_rate_keeps s now config)

  authorize-IsPast :
      (s : ClientSession C P) (id : ℤ) (seq ack now : ℕ)
      → IsPast s
      → IsPast (authorize_reconnect s id seq ack now config).0
  unfolding authorize_reconnect admit_reconnect
  authorize-IsPast s id seq ack now p = ground arith

  finish_encode-IsPast :
      {X : Type 0} (outbox : Bool) (now : ℕ) (s : ClientSession C P) (r : Result P X)
      → IsPast s
      → IsPast (finish_encode config outbox now s r).0
  unfolding finish_encode retain_message drop_oldest
  finish_encode-IsPast outbox now s (err e) p = p
  finish_encode-IsPast outbox now s (ok payload) p = ground arith

module _ {C P M X : Type 0} (net : Net C P M X) (config : SessionConfig) (least : ℕ) where
  encode-IsPast :
      (s : ClientSession C P) (msgid : MsgId) (message : M) (now : ℕ)
      → IsPast config least s
      → IsPast config least (encode net s msgid message now config).0
  unfolding encode
  encode-IsPast s msgid message now p =
      let counted = record s { server_seq = (s.server_seq + 1) % 2 ^ 32 } in
      finish_encode-IsPast config least (is_outbox_message net.system_msg_id_end (as_u16 msgid)) now
        counted (net.encode_message (as_u16 msgid) counted.server_seq s.client_seq message) p

  complete-IsPast :
      (s : ClientSession C P) (id : ℤ) (conn : C) (seq ack now : ℕ)
      → IsPast config least s
      → seq < half_ring
      → IsPast config least (complete_reconnect net s id conn seq ack now config).0
  unfolding complete_reconnect resume
  complete-IsPast s id conn seq ack now p b = ground (arith, later_past config least s seq p b)

  run-IsPast :
      (st : Stream C P) (es : List (Event C M))
      → Numbered es
      → IsPast config least st.session
      → IsPast config least (run net config st es).session
  unfolding run step encode detach accept_request
  run-IsPast st [] n p = p
  run-IsPast st (sent msgid message now ∷ es) n p =
      run-IsPast (step net config st (sent msgid message now)) es n
        (encode-IsPast st.session msgid message now p)
  run-IsPast st (requested id seq ack now ∷ es) n p =
      run-IsPast (step net config st (requested id seq ack now)) es n.1 (
        limit_rate-IsPast config least now _
          (accept_sequence-IsPast config least st.session id seq ack now p n.0))
  run-IsPast st (acknowledged id seq ack now ∷ es) n p =
      run-IsPast (step net config st (acknowledged id seq ack now)) es n.1
        (accept_sequence-IsPast config least st.session id seq ack now p n.0)
  run-IsPast st (authorized id seq ack now ∷ es) n p =
      run-IsPast (step net config st (authorized id seq ack now)) es n
        (authorize-IsPast config least st.session id seq ack now p)
  run-IsPast st (reconnected id conn seq ack now ∷ es) n p =
      run-IsPast (step net config st (reconnected id conn seq ack now)) es n.1
        (complete-IsPast st.session id conn seq ack now p n.0)
  run-IsPast st (disconnected now ∷ es) n p =
      run-IsPast (step net config st (disconnected now)) es n p

module _ {C P M X : Type 0} (net : Net C P M X) (config : SessionConfig) where
  -- Once a session took a request's number, no later request whose number is not above it is taken, whatever
  -- happens between them, reconnects included, and whichever session id it names, as long as the client
  -- keeps its numbers below 2^31.
  pub old_number_is_refused :
      (st : Stream C P) (id : ℤ) (seq ack now : ℕ) (events : List (Event C M)) (id' : ℤ)
      (stale ack' now' : ℕ)
      → let t = accept_request st.session id seq ack now config in
        IsTaken t.1
        → seq < half_ring
        → Numbered events
        → stale ≤ seq
        → ¬ IsTaken
            (accept_request
              (run net config (record st { session = t.0 }) events).session
              id'
              stale
              ack'
              now'
              config).1
  old_number_is_refused st id seq ack now events id' stale ack' now' h b n le k =
      let t = accept_request st.session id seq ack now config in
      let taken = accept_request_takes st.session id seq ack now config h in
      let s' = (run net config (record st { session = t.0 }) events).session in
      let past =
        run-IsPast net config seq (record st { session = t.0 }) events n
          (ground (arith, taken, b)) in
      let again = accept_request_takes s' id' stale ack' now' config k in
      ground (arith, past, again, le, seq_after-ltb stale s'.client_seq)
