-- ===== src/Gate/Session/Sequence.antt =====
-- The order of the u32 sequence numbers, and the sequence numbers that a session takes from its
-- client.
use xkk.Common.{ℕ, ◌+◌, ◌%◌, ◌^◌, ◌<◌, ◌≡◌, ◌≢◌, ◌⊎◌, true, false, ltb, arith, Result, ok, err}
use xkk.Common.Int.{ℤ, eqb_ℤ_iff}
use xkk.Gate.Session.{
  SessionConfig, Routes, RequestError, invalid_sequence, ClientSession, seq_after, active,
  accept_sequence, limit_rate, accept_rate, accept_request,
}

-- A number that lies less than half the ring after another is after it, across the wrap too.
pub seq_after_advance :
    (previous step : ℕ)
    → previous < 2 ^ 32
    → 0 < step
    → step < 2 ^ 31
    → seq_after ((previous + step) % 2 ^ 32) previous ≡ true
unfolding seq_after
seq_after_advance p d hp h0 h1 = ground arith

-- Of two u32 at most one is after the other.
seq_after_asymm : (a b : ℕ) → a < 2 ^ 32 → b < 2 ^ 32 → seq_after a b ≡ true → seq_after b a ≡ false
unfolding seq_after
seq_after_asymm a b ha hb h = ground arith

-- Below half the ring the order is that of the numbers.
pub seq_after-ltb :
    (value previous : ℕ)
    → value < 2 ^ 31
    → previous < 2 ^ 31
    → seq_after value previous ≡ ltb previous value
unfolding seq_after
seq_after-ltb v p hv hp = ground arith

-- The request is served, or refused for its rate alone.
abbrev pub IsTaken : Result Routes RequestError → Type 0
IsTaken r = (r ≡ err RequestError.rate_limited) ⊎ ((routes : Routes) × (r ≡ ok routes))

module _ {C P : Type 0} where
  pub accept_sequence_takes :
      (s t : ClientSession C P) (id : ℤ) (seq ack now ttl : ℕ)
      → accept_sequence s id seq ack now ttl ≡ (t, ok tt)
      → (s.session_id ≡ id)
        × (active s ≡ true)
        × (seq_after seq s.client_seq ≡ true)
        × (t.client_seq ≡ seq)
        × (t.session_id ≡ s.session_id)
        × (t.conn ≡ s.conn)
  unfolding accept_sequence
  accept_sequence_takes s t id seq ack now ttl h = ground (arith, eqb_ℤ_iff s.session_id id)

  pub accept_rate_keeps :
      (s : ClientSession C P) (now : ℕ) (config : SessionConfig)
      → ((accept_rate s now config).0.client_seq ≡ s.client_seq)
        × ((accept_rate s now config).0.session_id ≡ s.session_id)
        × ((accept_rate s now config).0.conn ≡ s.conn)
  unfolding accept_rate
  accept_rate_keeps s now config = ground arith

  accept_sequence-ne-rate_limited :
      (s : ClientSession C P) (id : ℤ) (seq ack now ttl : ℕ)
      → (accept_sequence s id seq ack now ttl).1 ≢ err RequestError.rate_limited
  unfolding accept_sequence
  accept_sequence-ne-rate_limited s id seq ack now ttl h = ground arith

  limit_rate_takes :
      (config : SessionConfig) (now : ℕ) (x : ClientSession C P × Result (Unit {0}) RequestError)
      → x.1 ≢ err RequestError.rate_limited
      → let y = limit_rate config now x in
        IsTaken y.1
        → (x.1 ≡ ok tt)
          × (y.0.client_seq ≡ x.0.client_seq)
          × (y.0.session_id ≡ x.0.session_id)
          × (y.0.conn ≡ x.0.conn)
  unfolding limit_rate
  limit_rate_takes config now (s, err e) n h = ground arith
  limit_rate_takes config now (s, ok _) n h = ground (arith, accept_rate_keeps s now config)

  -- A request is served, or refused for its rate alone, only if it names the current session of a
  -- connected client and its number is after the last one taken. It then takes that number, also
  -- where it is refused; the session id and the connection stay.
  pub accept_request_takes :
      (s : ClientSession C P) (id : ℤ) (seq ack now : ℕ) (config : SessionConfig)
      → let t = accept_request s id seq ack now config in
        IsTaken t.1
        → (s.session_id ≡ id)
          × (active s ≡ true)
          × (seq_after seq s.client_seq ≡ true)
          × (t.0.client_seq ≡ seq)
          × (t.0.session_id ≡ s.session_id)
          × (t.0.conn ≡ s.conn)
  unfolding accept_request
  accept_request_takes s id seq ack now config h = ground (
    arith,
    limit_rate_takes config now (accept_sequence s id seq ack now config.resume_ttl),
    accept_sequence-ne-rate_limited s id seq ack now config.resume_ttl,
    accept_sequence_takes s (accept_sequence s id seq ack now config.resume_ttl).0 id seq ack now
        config.resume_ttl,
  )

  refuse_stale :
      (t : ClientSession C P) (id : ℤ) (stale ack now : ℕ) (config : SessionConfig)
      → t.session_id ≡ id
      → active t ≡ true
      → seq_after stale t.client_seq ≡ false
      → accept_request t id stale ack now config ≡ (t, err invalid_sequence)
  unfolding accept_request
  refuse_stale t id stale ack now config e a h = ground (arith, eqb_ℤ_iff t.session_id id)

  -- The request that comes directly after one that took its number is refused and changes nothing, where its
  -- number is not after that one.
  pub stale_request_is_refused :
      (s : ClientSession C P) (id : ℤ) (seq ack now : ℕ) (config : SessionConfig)
      (stale ack' now' : ℕ)
      → let t = accept_request s id seq ack now config in
        IsTaken t.1
        → seq_after stale seq ≡ false
        → accept_request t.0 id stale ack' now' config ≡ (t.0, err invalid_sequence)
  unfolding active
  stale_request_is_refused s id seq ack now config stale ack' now' h k =
      let taken = accept_request_takes s id seq ack now config h in
      refuse_stale _ id stale ack' now' config (cc) (cc) (cc)
