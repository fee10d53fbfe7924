-- ===== src/Gate/Session/Outbox/Steps.antt =====
-- Each operation of a session keeps the account of its outbox.
use Prim.Native.Nat.{max}
use xkk.Common.{
  ℕ, suc, ◌+◌, ◌-◌, ◌%◌, ◌^◌, ◌≤◌, ◌<◌, ◌≡◌, refl, ◌∙◌, inl, inr, Bool, true, false, not, ◌||◌,
  List, [], ◌∷◌, ◌++◌, arith, ltb, if◌then◌else◌, is_some_and, All-map_of, append-nil, Result, ok,
  err, is_ok, Bool-cases,
}
use xkk.Common.Int.{ℤ, eqb_ℤ}
use xkk.Protocol.Message.{MsgId, as_u16, is_outbox_message}
use xkk.Gate.Session.{
  SessionConfig, ClientSession, OutboxMessage, RequestError, Net, seq_after, seq_at_or_after,
  active, prune_outbox, accept_sequence, limit_rate, accept_request, admit_reconnect,
  authorize_reconnect, complete_reconnect, encode, finish_encode,
}
use xkk.Gate.Session.Outbox.{
  half_ring, Covers, Covers-prune, Covers-acknowledge, Covers-retain, retained, server_seq-retain,
}

abbrev pub took : ℕ → ℕ → Bool → ℕ
took acked ack b = if b then max acked ack else acked

module _ {C P : Type 0} (config : SessionConfig) where
  -- The pruned session still accounts for the history.
  abbrev pub Keeps : List (OutboxMessage P) → ℕ → ClientSession C P → Type 0
  Keeps history acked s = Covers history acked s.server_seq s.outbox s.dropped_through

  pub prune-Keeps :
      (history : List (OutboxMessage P)) (acked now : ℕ) (s : ClientSession C P)
      → Keeps history acked s
      → Keeps history acked (prune_outbox s now config.resume_ttl)
  unfolding prune_outbox
  prune-Keeps history acked now s k =
      Covers-prune history acked s.server_seq now config.resume_ttl s.outbox s.dropped_through k

  pub accept_sequence-Keeps :
      (history : List (OutboxMessage P)) (acked : ℕ) (s : ClientSession C P) (id : ℤ)
      (seq ack now : ℕ)
      → s.server_seq < half_ring
      → ack < half_ring
      → Keeps history acked s
      → let (t, r) = accept_sequence s id seq ack now config.resume_ttl in
        Keeps history (took acked ack (is_ok r)) t × (t.server_seq ≡ s.server_seq)
  unfolding accept_sequence
  accept_sequence-Keeps history acked s id seq ack now hs ha k =
      elim (Bool-cases (not (eqb_ℤ s.session_id id) || not (active s))) [
        | inl e ↦ rw e (k, refl)
        | inr e ↦ elim (Bool-cases (seq_after seq s.client_seq)) [
          | inl f ↦
              rw (e, f)
                (
                  Covers-acknowledge history acked (max acked ack) s.server_seq ack _ _ hs ha
                      (omega arith) (omega arith) (prune-Keeps history acked now s k),
                  refl,
                )
          | inr f ↦ rw (e, f) (k, refl)
        ]
      ]

  -- A session that differs in other fields keeps as much.
  Same : ClientSession C P → ClientSession C P → Type 0
  Same s t =
      (t.outbox ≡ s.outbox)
      × (t.dropped_through ≡ s.dropped_through)
      × (t.server_seq ≡ s.server_seq)

  Same-Keeps :
      (history : List (OutboxMessage P)) (acked : ℕ) (s t : ClientSession C P)
      → Same s t
      → Keeps history acked s
      → Keeps history acked t
  unfolding Same
  Same-Keeps history acked s t (o, d, q) k = rw (o, d, q) k

  limit_rate-Same :
      (now : ℕ) (x : ClientSession C P × Result (Unit {0}) RequestError)
      → Same x.0 (limit_rate config now x).0
  unfolding limit_rate Same
  limit_rate-Same now (s, err e) = (refl, refl, refl)
  limit_rate-Same now (s, ok _) = ground arith

  pub accept_request-Keeps :
      (history : List (OutboxMessage P)) (acked : ℕ) (s : ClientSession C P) (id : ℤ)
      (seq ack now : ℕ)
      → s.server_seq < half_ring
      → ack < half_ring
      → Keeps history acked s
      → let (x, r) = accept_sequence s id seq ack now config.resume_ttl in
        let t = (accept_request s id seq ack now config).0 in
        Keeps history (took acked ack (is_ok r)) t × (t.server_seq ≡ s.server_seq)
  unfolding accept_request Same
  accept_request-Keeps history acked s id seq ack now hs ha k =
      let kept = accept_sequence-Keeps history acked s id seq ack now hs ha k in
      let same = limit_rate-Same now (accept_sequence s id seq ack now config.resume_ttl) in
      (
        Same-Keeps history
            (took acked ack (is_ok (accept_sequence s id seq ack now config.resume_ttl).1))
            (accept_sequence s id seq ack now config.resume_ttl).0
            (accept_request s id seq ack now config).0 same kept.0,
        same.2 ∙ kept.1,
      )

  admit_reconnect-Same :
      (s : ClientSession C P) (ack now : ℕ) → Same s (admit_reconnect s ack now config).0
  unfolding admit_reconnect Same
  admit_reconnect-Same s ack now = ground arith

  pub authorize_reconnect-Keeps :
      (history : List (OutboxMessage P)) (acked : ℕ) (s : ClientSession C P) (id : ℤ)
      (seq ack now : ℕ)
      → Keeps history acked s
      → let t = (authorize_reconnect s id seq ack now config).0 in
        Keeps history acked t × (t.server_seq ≡ s.server_seq)
  unfolding authorize_reconnect Same
  authorize_reconnect-Keeps history acked s id seq ack now k =
      elim (Bool-cases (eqb_ℤ s.session_id id)) [
        | inr e ↦ rw e (k, refl)
        | inl e ↦ elim (Bool-cases (seq_after seq s.client_seq)) [
          | inr f ↦ rw (e, f) (k, refl)
          | inl f ↦
              elim (Bool-cases
                (is_some_and s.disconnected_at (λ at. ltb config.resume_ttl (now - at)))) [
                  | inl g ↦ rw (e, f, g) (k, refl)
                  | inr g ↦
                      rw (e, f, g)
                        (let same =
                            admit_reconnect-Same (prune_outbox s now config.resume_ttl) ack now in
                          (
                            Same-Keeps history acked (prune_outbox s now config.resume_ttl)
                                (admit_reconnect (prune_outbox s now config.resume_ttl) ack now
                                  config).0
                                same (prune-Keeps history acked now s k),
                            same.2,
                          ))
                ]
        ]
      ]

  -- What `encode` puts into the outbox, and so into the history.
  abbrev pub entered {ℓ} :
      {X : Type ℓ} → Bool → ClientSession C P → ℕ → Result P X → List (OutboxMessage P)
  entered outbox t now (err e) = []
  entered outbox t now (ok payload) = if outbox then retained t payload now ∷ [] else []

  up-Keeps :
      (history : List (OutboxMessage P)) (acked top : ℕ) (s : ClientSession C P)
      → top ≤ s.server_seq
      → Covers history acked top s.outbox s.dropped_through
      → Keeps history acked s
  up-Keeps history acked top s le c = record {
    gone = c.gone;
    split = c.split;
    accounted = c.accounted;
    rises = c.rises;
    up_to =
        All-map_of (λ m. m.seq ≤ top) (λ m. m.seq ≤ s.server_seq) (λ m h. omega arith) s.outbox
          c.up_to;
    floor_up_to = let low = c.floor_up_to in omega arith;
  }

  finish_encode-Keeps {ℓ} :
      {X : Type ℓ} (history : List (OutboxMessage P)) (acked top now : ℕ) (outbox : Bool)
      (s : ClientSession C P) (r : Result P X)
      → top ≤ s.server_seq
      → Covers history acked top s.outbox s.dropped_through
      → let (t, r') = finish_encode config outbox now s r in
        Keeps (history ++ entered outbox t now r') acked t × (t.server_seq ≡ s.server_seq)
  unfolding finish_encode
  finish_encode-Keeps history acked top now outbox s (err e) le c =
      (rw (append-nil history) (up-Keeps history acked top s le c), refl)
  finish_encode-Keeps history acked top now false s (ok payload) le c =
      (rw (append-nil history) (up-Keeps history acked top s le c), refl)
  finish_encode-Keeps history acked top now true s (ok payload) le c =
      rw (server_seq-retain (prune_outbox s now config.resume_ttl) payload now config) (
        Covers-retain history acked top (prune_outbox s now config.resume_ttl) payload now config le
            (Covers-prune history acked top now config.resume_ttl s.outbox s.dropped_through c),
        refl,
      )

  module _ {M X : Type 0} (net : Net C P M X) where
    pub complete_reconnect-Keeps :
        (history : List (OutboxMessage P)) (acked : ℕ) (s : ClientSession C P) (id : ℤ) (conn : C)
        (seq ack now : ℕ)
        → s.server_seq < half_ring
        → ack < half_ring
        → Keeps history acked s
        → let (t, r) = complete_reconnect net s id conn seq ack now config in
          Keeps history (took acked ack (is_ok r)) t × (t.server_seq ≡ s.server_seq)
    unfolding complete_reconnect
    complete_reconnect-Keeps history acked s id conn seq ack now hs ha k =
        let pruned = prune_outbox s now config.resume_ttl in
        let kept = prune-Keeps history acked now s k in
        elim (Bool-cases (eqb_ℤ s.session_id id)) [
          | inr e ↦ rw e (k, refl)
          | inl e ↦ elim (Bool-cases (seq_after seq s.client_seq)) [
            | inr f ↦ rw (e, f) (k, refl)
            | inl f ↦
                elim (Bool-cases (
                  is_some_and pruned.dropped_through
                    (λ dropped. not (seq_at_or_after ack dropped)))) [
                      | inl g ↦ rw (e, f, g) (kept, refl)
                      | inr g ↦
                          rw (e, f, g)
                            (
                              Covers-acknowledge history acked (max acked ack) s.server_seq ack
                                  pruned.outbox pruned.dropped_through hs ha (omega arith)
                                  (omega arith) kept,
                              refl,
                            )
                    ]
          ]
        ]

    pub encode-Keeps :
        (history : List (OutboxMessage P)) (acked : ℕ) (s : ClientSession C P) (msgid : MsgId)
        (m : M) (now : ℕ)
        → suc s.server_seq < half_ring
        → Keeps history acked s
        → let (t, r) = encode net s msgid m now config in
          let outbox = is_outbox_message net.system_msg_id_end (as_u16 msgid) in
          Keeps (history ++ entered outbox t now r) acked t × (t.server_seq ≡ suc s.server_seq)
    unfolding encode
    encode-Keeps history acked s msgid m now hs k =
        let counted = record s { server_seq = (s.server_seq + 1) % 2 ^ 32 } in
        let (kept, same) =
          finish_encode-Keeps history acked s.server_seq now
            (is_outbox_message net.system_msg_id_end (as_u16 msgid)) counted
            (net.encode_message (as_u16 msgid) counted.server_seq s.client_seq m) (omega arith) k in
        (kept, same ∙ omega arith)
