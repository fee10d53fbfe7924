-- ===== src/Gate/Session/Replay.antt =====
-- A session over the events of its life, beside all messages that ever entered its outbox and the
-- highest acknowledgement that it took: what a reconnect replays.
use xkk.Common.{
  subst, ℕ, suc, ◌≤◌, ◌<◌, ◌≡◌, refl, sym, ap, ◌∙◌, false, not, Option, none, some, List, [], ◌∷◌,
  ◌++◌, map, arith, ltb, is_some_and, filter, drop_while, All-map_of, filter-append, filter_none,
  filter_congr, ok, is_ok,
}
use xkk.Common.Int.{ℤ}
use xkk.Protocol.Message.{MsgId, as_u16, is_outbox_message}
use xkk.Gate.Session.{
  SessionConfig, ClientSession, OutboxMessage, Routes, ReconnectResult, Net, seq_after,
  seq_at_or_after, prune_outbox, accept_sequence, accept_request, authorize_reconnect, new,
  complete_reconnect, encode, detach,
}
use xkk.Gate.Session.Sequence.{seq_after-ltb}
use xkk.Gate.Session.Outbox.Steps.{
  took, Keeps, prune-Keeps, entered, accept_sequence-Keeps, accept_request-Keeps,
  authorize_reconnect-Keeps, complete_reconnect-Keeps, encode-Keeps,
}
use xkk.Gate.Session.Outbox.{half_ring, floor, Accounted, Covers, Covers-acknowledge}

pub data Event (C M : Type 0) : Type 0 where
  sent : MsgId → M → ℕ → Event C M
  requested : ℤ → ℕ → ℕ → ℕ → Event C M
  acknowledged : ℤ → ℕ → ℕ → ℕ → Event C M
  authorized : ℤ → ℕ → ℕ → ℕ → Event C M
  reconnected : ℤ → C → ℕ → ℕ → ℕ → Event C M
  disconnected : ℕ → Event C M

pub record Stream (C P : Type 0) : Type 0 where
  pub session : ClientSession C P
  pub history : List (OutboxMessage P)
  pub acked : ℕ

module _ {C P M X : Type 0} (net : Net C P M X) (config : SessionConfig) where
  -- An acknowledgement counts as taken where the session took the packet that carried it.
  unfoldable pub step : Stream C P → Event C M → Stream C P
  step st (sent msgid message now) =
      let (s, r) = encode net st.session msgid message now config in
      let outbox = is_outbox_message net.system_msg_id_end (as_u16 msgid) in
      record st { session = s; history = st.history ++ entered config outbox s now r }
  step st (requested id seq ack now) =
      let taken = (accept_sequence st.session id seq ack now config.resume_ttl).1 in
      record st {
        session = (accept_request st.session id seq ack now config).0;
        acked = took st.acked ack (is_ok taken);
      }
  step st (acknowledged id seq ack now) =
      let (s, taken) = accept_sequence st.session id seq ack now config.resume_ttl in
      record st { session = s; acked = took st.acked ack (is_ok taken) }
  step st (authorized id seq ack now) = record st {
    session = (authorize_reconnect st.session id seq ack now config).0;
  }
  step st (reconnected id conn seq ack now) =
      let (s, r) = complete_reconnect net st.session id conn seq ack now config in
      record st { session = s; acked = took st.acked ack (is_ok r) }
  step st (disconnected now) = record st { session = detach st.session now }

  unfoldable pub run : Stream C P → List (Event C M) → Stream C P
  unfolding step
  run st [] = st
  run st (e ∷ es) = run (step st e) es

  -- The stream of a client that has just logged in.
  abbrev pub started : C → Routes → ℕ → Stream C P
  started conn routes client_seq = record {
    session = new net conn routes client_seq;
    history = [];
    acked = 0;
  }

-- From the sequence number `n` on fewer than 2^31 messages are numbered, and the acknowledgements
-- stay below 2^31.
abbrev pub Fits : {C M : Type 0} → ℕ → List (Event C M) → Type 0
Fits n [] = Unit {0}
Fits n (sent msgid message now ∷ es) = (suc n < half_ring) × Fits (suc n) es
Fits n (requested id seq ack now ∷ es) = (ack < half_ring) × Fits n es
Fits n (acknowledged id seq ack now ∷ es) = (ack < half_ring) × Fits n es
Fits n (authorized id seq ack now ∷ es) = (ack < half_ring) × Fits n es
Fits n (reconnected id conn seq ack now ∷ es) = (ack < half_ring) × Fits n es
Fits n (disconnected now ∷ es) = Fits n es

module _ {C P M X : Type 0} (net : Net C P M X) (config : SessionConfig) where
  record Inv (n : ℕ) (st : Stream C P) : Type 0 where
    keeps : Keeps config st.history st.acked st.session
    numbered : st.session.server_seq ≡ n
    small : n < half_ring

  below : (n : ℕ) (st : Stream C P) → Inv n st → st.session.server_seq < half_ring
  below n st i = subst (λ k. k < half_ring) (sym i.numbered) i.small

  run-Inv :
      (n : ℕ) (st : Stream C P) (es : List (Event C M))
      → Fits n es
      → Inv n st
      → (k : ℕ) × Inv k (run net config st es)
  unfolding run step detach
  run-Inv n st [] f i = (n, i)
  run-Inv n st (sent msgid message now ∷ es) f i =
      let q = i.numbered in
      let (kept, same) =
        encode-Keeps config net st.history st.acked st.session msgid message now
          (subst (λ k. suc k < half_ring) (sym q) f.0) i.keeps in
      run-Inv (suc n) (step net config st (sent msgid message now)) es f.1
        (record { keeps = kept; numbered = same ∙ ap suc q; small = f.0 })
  run-Inv n st (requested id seq ack now ∷ es) f i =
      let (kept, same) =
        accept_request-Keeps config st.history st.acked st.session id seq ack now (below n st i) f.0
          i.keeps in
      run-Inv n (step net config st (requested id seq ack now)) es f.1
        (record { keeps = kept; numbered = same ∙ i.numbered; small = i.small })
  run-Inv n st (acknowledged id seq ack now ∷ es) f i =
      let (kept, same) =
        accept_sequence-Keeps config st.history st.acked st.session id seq ack now (below n st i)
          f.0 i.keeps in
      run-Inv n (step net config st (acknowledged id seq ack now)) es f.1
        (record { keeps = kept; numbered = same ∙ i.numbered; small = i.small })
  run-Inv n st (authorized id seq ack now ∷ es) f i =
      let (kept, same) =
        authorize_reconnect-Keeps config st.history st.acked st.session id seq ack now i.keeps in
      run-Inv n (step net config st (authorized id seq ack now)) es f.1
        (record { keeps = kept; numbered = same ∙ i.numbered; small = i.small })
  run-Inv n st (reconnected id conn seq ack now ∷ es) f i =
      let (kept, same) =
        complete_reconnect-Keeps config net st.history st.acked st.session id conn seq ack now
          (below n st i) f.0 i.keeps in
      run-Inv n (step net config st (reconnected id conn seq ack now)) es f.1
        (record { keeps = kept; numbered = same ∙ i.numbered; small = i.small })
  run-Inv n st (disconnected now ∷ es) f i =
      run-Inv n (step net config st (disconnected now)) es f
        (record { keeps = i.keeps; numbered = i.numbered; small = i.small })

  started-Inv :
      (conn : C) (routes : Routes) (client_seq : ℕ)
      → Inv 0 (started net config conn routes client_seq)
  unfolding new
  started-Inv conn routes client_seq = record {
    keeps = record {
      gone = [];
      split = refl;
      accounted = tt;
      rises = tt;
      up_to = tt;
      floor_up_to = omega arith;
    };
    numbered = refl;
    small = omega arith;
  }

  granted_replay :
      (s : ClientSession C P) (id : ℤ) (conn : C) (seq ack now : ℕ) (result : ReconnectResult P)
      → (complete_reconnect net s id conn seq ack now config).1 ≡ ok result
      → let pruned = prune_outbox s now config.resume_ttl in
        (result.replay
          ≡ map
              (λ m. m.payload)
              (filter
                (λ m. seq_after m.seq ack)
                (drop_while (λ m. not (seq_after m.seq ack)) pruned.outbox)))
        × (is_some_and pruned.dropped_through (λ dropped. not (seq_at_or_after ack dropped))
            ≡ false)
  unfolding complete_reconnect
  granted_replay s id conn seq ack now result e = ground arith

  -- The acknowledgement of a granted reconnect is at or above what was dropped.
  floor-le :
      (dropped : Option ℕ) (ack top : ℕ)
      → floor dropped ≤ top
      → top < half_ring
      → ack < half_ring
      → is_some_and dropped (λ d. not (seq_at_or_after ack d)) ≡ false
      → floor dropped ≤ ack
  unfolding seq_at_or_after
  floor-le none ack top h ht ha e = omega arith
  floor-le (some d) ack top h ht ha e = ground (arith, seq_after-ltb ack d)

  covered_replay :
      (history outbox : List (OutboxMessage P)) (dropped : Option ℕ) (ack top : ℕ)
      → top < half_ring
      → ack < half_ring
      → floor dropped ≤ ack
      → Covers history ack top outbox dropped
      → filter (λ m. seq_after m.seq ack) outbox ≡ filter (λ m. ltb ack m.seq) history
  covered_replay history outbox dropped ack top ht ha low c =
      rw (c.split, filter-append (λ (m : OutboxMessage P). ltb ack m.seq) c.gone outbox)
        (rw
          (filter_none (λ (m : OutboxMessage P). ltb ack m.seq) c.gone
            (All-map_of (Accounted ack dropped) (λ m. ltb ack m.seq ≡ false) (λ m h. ground arith)
              c.gone c.accounted))
          (filter_congr (λ (m : OutboxMessage P). seq_after m.seq ack) (λ m. ltb ack m.seq) outbox
            (All-map_of (λ m. m.seq ≤ top) (λ m. seq_after m.seq ack ≡ ltb ack m.seq)
              (λ m h. seq_after-ltb m.seq ack (omega arith) ha) outbox c.up_to)))

  replay_from_Inv :
      (n : ℕ) (st : Stream C P) (id : ℤ) (conn : C) (seq ack now : ℕ) (result : ReconnectResult P)
      → Inv n st
      → st.acked ≤ ack
      → ack < half_ring
      → (complete_reconnect net st.session id conn seq ack now config).1 ≡ ok result
      → result.replay ≡ map (λ m. m.payload) (filter (λ m. ltb ack m.seq) st.history)
  unfolding prune_outbox
  replay_from_Inv n st id conn seq ack now result i le h e =
      let pruned = prune_outbox st.session now config.resume_ttl in
      let (same, covered) = granted_replay st.session id conn seq ack now result e in
      let kept = prune-Keeps config st.history st.acked now st.session i.keeps in
      let small = below n st i in
      let low =
        floor-le pruned.dropped_through ack st.session.server_seq kept.floor_up_to small h
          covered in
      same
      ∙ ap (map (λ (m : OutboxMessage P). m.payload)) (
          covered_replay st.history _ pruned.dropped_through ack pruned.server_seq small h low (
            Covers-acknowledge st.history st.acked ack pruned.server_seq ack pruned.outbox
              pruned.dropped_through small h le (omega arith) kept))

-- A client logs in, and any events follow in which the server numbers fewer than 2^31 messages and
-- the acknowledgements are below 2^31. If a reconnect is then granted, with an acknowledgement that
-- is at least those taken before, its replay is exactly the messages ever put into the outbox
-- that are newer than the acknowledgement, in their order: none is lost and none comes twice.
pub replay_is_exact :
    {C P M X : Type 0} (net : Net C P M X) (config : SessionConfig) (conn : C) (routes : Routes)
    (client_seq : ℕ) (es : List (Event C M)) (id : ℤ) (conn' : C) (seq ack now : ℕ)
    (result : ReconnectResult P)
    → Fits 0 es
    → let st = run net config (started net config conn routes client_seq) es in
      st.acked ≤ ack
      → ack < half_ring
      → (complete_reconnect net st.session id conn' seq ack now config).1 ≡ ok result
      → result.replay ≡ map (λ m. m.payload) (filter (λ m. ltb ack m.seq) st.history)
replay_is_exact net config conn routes client_seq es id conn' seq ack now result f le h e =
    let (n, i) = run-Inv net config 0 _ es f (started-Inv net config conn routes client_seq) in
    replay_from_Inv net config n _ id conn' seq ack now result i le h e
