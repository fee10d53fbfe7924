-- ===== src/Gate/Session/Outbox.antt =====
-- What the outbox keeps of all that was ever put into it, through pruning, acknowledgement and
-- eviction. The sequence numbers stay below half the ring, so their order is that of the numbers.
pub mod Steps
use xkk.Common.{
  ℕ, suc, ◌+◌, ◌-◌, ◌%◌, ◌^◌, ◌≤◌, ◌<◌, ◌≡◌, refl, sym, ap, ◌∙◌, ◌⊎◌, inl, inr, Bool, true, false,
  not, Option, none, some, List, [], ◌∷◌, ◌++◌, arith, ltb, leb, eqb, if◌then◌else◌, length, filter,
  drop_while, All, All-append, All-append_left, All-append_right, All-map_of, All-map₂,
  length-append, drop_while_split, append_assoc, append-nil, Bool-cases, subst,
  length-drop_while-le,
}
use xkk.Gate.Session.{
  SessionConfig, ClientSession, OutboxMessage, seq_after, prune_from, prune_outbox,
  acknowledge_outbox, drop_oldest, retain_message,
}
use xkk.Gate.Session.Sequence.{seq_after-ltb}

abbrev pub half_ring : ℕ
half_ring = 2 ^ 31

abbrev pub floor : Option ℕ → ℕ
floor none = 0
floor (some d) = d

module _ {P : Type 0} where
  -- The sequence numbers rise from `lo` on.
  abbrev pub Rises : ℕ → List (OutboxMessage P) → Type 0
  Rises lo [] = Unit {0}
  Rises lo (m ∷ ms) = (lo ≤ m.seq) × Rises m.seq ms

  abbrev pub UpTo : ℕ → List (OutboxMessage P) → Type 0
  UpTo top = All (λ m. m.seq ≤ top)

  -- The message was acknowledged, or lies in what was dropped.
  abbrev pub Accounted : ℕ → Option ℕ → OutboxMessage P → Type 0
  Accounted acked dropped m = (m.seq ≤ acked) ⊎ (m.seq ≤ floor dropped)

  -- The history is messages that are accounted for, and then the outbox; `top` is the last sequence
  -- number given.
  pub record Covers (history : List (OutboxMessage P)) (acked top : ℕ)
      (outbox : List (OutboxMessage P)) (dropped : Option ℕ) : Type 0 where
    pub gone : List (OutboxMessage P)
    pub split : history ≡ gone ++ outbox
    pub accounted : All (Accounted acked dropped) gone
    pub rises : Rises (floor dropped) outbox
    pub up_to : UpTo top outbox
    pub floor_up_to : floor dropped ≤ top

  Rises-lower : (a b : ℕ) (ms : List (OutboxMessage P)) → a ≤ b → Rises b ms → Rises a ms
  Rises-lower a b [] h r = tt
  Rises-lower a b (m ∷ ms) h r = (omega arith, r.1)

  Rises-drop :
      (p : OutboxMessage P → Bool) (lo : ℕ) (ms : List (OutboxMessage P))
      → Rises lo ms
      → Rises lo (drop_while p ms)
  Rises-drop p lo [] r = tt
  Rises-drop p lo (m ∷ ms) r = elim (Bool-cases (p m)) [
    | inl e ↦ rw e (Rises-lower lo m.seq (drop_while p ms) r.0 (Rises-drop p m.seq ms r.1))
    | inr e ↦ rw e r
  ]

  Rises-snoc :
      (lo top : ℕ) (ms : List (OutboxMessage P)) (m : OutboxMessage P)
      → Rises lo ms
      → UpTo top ms
      → lo ≤ m.seq
      → top ≤ m.seq
      → Rises lo (ms ++ (m ∷ []))
  Rises-snoc lo top [] m r u h k = (h, tt)
  Rises-snoc lo top (x ∷ ms) m r u h k = (r.0, Rises-snoc x.seq top ms m r.1 u.1 (omega arith) k)

  -- The front of the outbox leaves as dropped.
  Covers-pop :
      (history : List (OutboxMessage P)) (acked top : ℕ) (m : OutboxMessage P)
      (ms : List (OutboxMessage P)) (dropped : Option ℕ)
      → Covers history acked top (m ∷ ms) dropped
      → Covers history acked top ms (some m.seq)
  Covers-pop history acked top m ms dropped c = record {
    gone = c.gone ++ (m ∷ []);
    split = c.split ∙ sym (append_assoc c.gone (m ∷ []) ms);
    accounted =
        All-append (Accounted acked (some m.seq)) c.gone (m ∷ [])
          (All-map_of (Accounted acked dropped) (Accounted acked (some m.seq)) (λ x h. omega arith)
            c.gone c.accounted)
          (inr (omega arith), tt);
    rises = c.rises.1;
    up_to = c.up_to.1;
    floor_up_to = c.up_to.0;
  }

  pub Covers-prune :
      (history : List (OutboxMessage P)) (acked top now ttl : ℕ) (outbox : List (OutboxMessage P))
      (dropped : Option ℕ)
      → Covers history acked top outbox dropped
      → let (outbox', dropped') = prune_from now ttl outbox dropped in
        Covers history acked top outbox' dropped'
  unfolding prune_from
  Covers-prune history acked top now ttl [] dropped c = c
  Covers-prune history acked top now ttl (m ∷ ms) dropped c =
      elim (Bool-cases (ltb ttl (now - m.sent_at))) [
        | inl e ↦ rw e (
            Covers-prune history acked top now ttl ms (some m.seq)
              (Covers-pop history acked top m ms dropped c))
        | inr e ↦ rw e c
      ]

  pub Covers-acknowledge :
      (history : List (OutboxMessage P)) (acked acked' top ack : ℕ)
      (outbox : List (OutboxMessage P)) (dropped : Option ℕ)
      → top < half_ring
      → ack < half_ring
      → acked ≤ acked'
      → ack ≤ acked'
      → Covers history acked top outbox dropped
      → Covers history acked' top (drop_while (λ m. not (seq_after m.seq ack)) outbox) dropped
  Covers-acknowledge history acked acked' top ack outbox dropped ht ha le le' c =
      let old = λ (m : OutboxMessage P). not (seq_after m.seq ack) in
      let (pre, s, h) = drop_while_split old outbox in
      let up_to' = subst (UpTo top) s c.up_to in
      record {
        gone = c.gone ++ pre;
        split =
            c.split ∙ ap (◌++◌ c.gone) s ∙ sym (append_assoc c.gone pre (drop_while old outbox));
        accounted =
            All-append (Accounted acked' dropped) c.gone pre
              (All-map_of (Accounted acked dropped) (Accounted acked' dropped) (λ x k. omega arith)
                c.gone c.accounted)
              (All-map₂ (λ m. old m ≡ true) (λ m. m.seq ≤ top) (Accounted acked' dropped)
                (λ m e u. inl (ground (arith, seq_after-ltb m.seq ack))) pre h
                (All-append_left (λ m. m.seq ≤ top) pre (drop_while old outbox) up_to'));
        rises = Rises-drop old (floor dropped) outbox c.rises;
        up_to = All-append_right (λ m. m.seq ≤ top) pre (drop_while old outbox) up_to';
        floor_up_to = c.floor_up_to;
      }

  -- A new message enters at the back with the next sequence number.
  Covers-push :
      (history : List (OutboxMessage P)) (acked top : ℕ) (outbox : List (OutboxMessage P))
      (dropped : Option ℕ) (m : OutboxMessage P)
      → top ≤ m.seq
      → Covers history acked top outbox dropped
      → Covers (history ++ (m ∷ [])) acked m.seq (outbox ++ (m ∷ [])) dropped
  Covers-push history acked top outbox dropped m le c = record {
    gone = c.gone;
    split = ap (λ l. l ++ (m ∷ [])) c.split ∙ append_assoc c.gone outbox (m ∷ []);
    accounted = c.accounted;
    rises =
        let low = c.floor_up_to in
        Rises-snoc (floor dropped) top outbox m c.rises c.up_to (omega arith) le;
    up_to =
        All-append (λ x. x.seq ≤ m.seq) outbox (m ∷ [])
          (All-map_of (λ x. x.seq ≤ top) (λ x. x.seq ≤ m.seq) (λ x h. omega arith) outbox c.up_to)
          (omega arith, tt);
    floor_up_to = let low = c.floor_up_to in omega arith;
  }

module _ {C P : Type 0} where
  Covers-drop_oldest :
      (history : List (OutboxMessage P)) (acked top : ℕ) (s : ClientSession C P)
      (ms : List (OutboxMessage P))
      → s.outbox ≡ ms
      → Covers history acked top ms s.dropped_through
      → Covers history acked top (drop_oldest s ms).outbox (drop_oldest s ms).dropped_through
  unfolding drop_oldest
  Covers-drop_oldest history acked top s [] e c = rw e c
  Covers-drop_oldest history acked top s (m ∷ ms) e c =
      Covers-pop history acked top m ms s.dropped_through c

  length-drop_oldest :
      (s : ClientSession C P) (ms : List (OutboxMessage P))
      → s.outbox ≡ ms
      → length (drop_oldest s ms).outbox ≡ length ms - 1
  unfolding drop_oldest
  length-drop_oldest s [] e = rw e
  length-drop_oldest s (m ∷ ms) e = omega arith

  server_seq-drop_oldest :
      (s : ClientSession C P) (ms : List (OutboxMessage P))
      → (drop_oldest s ms).server_seq ≡ s.server_seq
  unfolding drop_oldest
  server_seq-drop_oldest s [] = refl
  server_seq-drop_oldest s (m ∷ ms) = refl

  pub server_seq-retain :
      (s : ClientSession C P) (payload : P) (now : ℕ) (config : SessionConfig)
      → (retain_message s payload now config).server_seq ≡ s.server_seq
  unfolding retain_message
  server_seq-retain s payload now config =
      elim (Bool-cases (eqb (length s.outbox) config.outbox_messages)) [
        | inl e ↦ rw e (server_seq-drop_oldest s s.outbox)
        | inr e ↦ rw e
      ]

  -- The message that `retain_message` puts at the back.
  abbrev pub retained : ClientSession C P → P → ℕ → OutboxMessage P
  retained s payload now = record { seq = s.server_seq; sent_at = now; payload = payload }

  pub Covers-retain :
      (history : List (OutboxMessage P)) (acked top : ℕ) (s : ClientSession C P) (payload : P)
      (now : ℕ) (config : SessionConfig)
      → top ≤ s.server_seq
      → Covers history acked top s.outbox s.dropped_through
      → let t = retain_message s payload now config in
        Covers
          (history ++ (retained s payload now ∷ []))
          acked
          s.server_seq
          t.outbox
          t.dropped_through
  unfolding retain_message
  Covers-retain history acked top s payload now config le c =
      elim (Bool-cases (eqb (length s.outbox) config.outbox_messages)) [
        | inl e ↦ rw e (
            Covers-push history acked top _ _ (retained s payload now) le
              (Covers-drop_oldest history acked top s s.outbox refl c))
        | inr e ↦
            rw e (
              Covers-push history acked top s.outbox s.dropped_through (retained s payload now) le
                c)
      ]

  pub length-retain :
      (s : ClientSession C P) (payload : P) (now : ℕ) (config : SessionConfig)
      → 0 < config.outbox_messages
      → length s.outbox ≤ config.outbox_messages
      → length (retain_message s payload now config).outbox ≤ config.outbox_messages
  unfolding retain_message
  length-retain s payload now config pos h =
      elim (Bool-cases (eqb (length s.outbox) config.outbox_messages)) [
        | inl e ↦ rw e (
            ground (
              arith,
              length-append (drop_oldest s s.outbox).outbox (retained s payload now ∷ []),
              length-drop_oldest s s.outbox refl,
            ))
        | inr e ↦ rw e (ground (arith, length-append s.outbox (retained s payload now ∷ [])))
      ]
