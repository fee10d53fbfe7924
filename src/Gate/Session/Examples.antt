-- ===== src/Gate/Session/Examples.antt =====
-- The laws of a session at concrete clients, and runs of its functions.
use xkk.Common.{
  ℕ, ◌+◌, ◌%◌, ◌^◌, ◌-◌, ◌≤◌, ◌≡◌, refl, inr, true, List, [], ◌∷◌, map, arith, filter, ltb, ok,
}
use xkk.Common.Int.{ℤ, pos, eqb_ℤ}
use xkk.Protocol.Message.{MsgId}
use xkk.Protocol.Message
use xkk.Gate.Session.{
  SessionConfig, Routes, ClientSession, Net, hard_limits, validate, seq_after, new, active,
  accept_request, accept_rate, authorize_reconnect, complete_reconnect, encode, detach,
  retain_message, prune_from,
}
use xkk.Gate.Session.Sequence.{seq_after_advance, IsTaken, accept_request_takes}
use xkk.Gate.Session.Numbers.{old_number_is_refused}
use xkk.Gate.Session.Rate.{rate_run, admit_all, rate_run-eq-admit_all}
use xkk.Gate.Session.Rate.Windows.{count_within}
use xkk.Gate.Session.Rate.Bounds.{rate_run_bounded}
use xkk.Gate.Session.Reconnects.{is_granted, granted, granted_bounded}
use xkk.Gate.Session.Replay.{
  Event, sent, requested, authorized, reconnected, disconnected, step, run, started,
  replay_is_exact,
}

-- A connection is its session id, and a packet its head and its message.
abbrev Packet : Type 0
Packet = ℕ × ℕ × ℕ × ℕ

abbrev plain_net : Net ℤ Packet ℕ (Unit {0})
plain_net = record {
  conn_session_id = λ c. c;
  system_msg_id_end = 100;
  encode_message = λ msgid seq ack m. ok (msgid, seq, ack, m);
}

abbrev routes : Routes
routes = record { logic_id = pos 1; public_id = pos 2 }

abbrev fresh : ClientSession ℤ Packet
fresh = new plain_net (pos 11) routes 0

seq_after_wraps : seq_after 0 (2 ^ 32 - 1) ≡ true
unfolding seq_after
seq_after_wraps = refl

hard_limits_valid : validate hard_limits ≡ true
unfolding validate
hard_limits_valid = refl

seq_after_advance_example : seq_after ((4_294_967_295 + 1) % 2 ^ 32) 4_294_967_295 ≡ true
seq_after_advance_example =
    seq_after_advance 4_294_967_295 1 (omega arith) (omega arith) (omega arith)

accept_request_takes_example : (accept_request fresh (pos 11) 1 0 5 hard_limits).0.client_seq ≡ 1
unfolding accept_request new active eqb_ℤ seq_after
accept_request_takes_example =
    (accept_request_takes fresh (pos 11) 1 0 5 hard_limits (inr (routes, refl))).3

-- The request 1 is taken, its number comes again after another request and a disconnect.
abbrev later : List (Event ℤ ℕ)
later = requested (pos 11) 2 0 6 ∷ disconnected 7 ∷ reconnected (pos 11) (pos 12) 5 0 8 ∷ []

old_number_is_refused_example :
    ¬ IsTaken
      (accept_request
        (run plain_net hard_limits
          (record (started plain_net hard_limits (pos 11) routes 0) {
            session = (accept_request fresh (pos 11) 1 0 5 hard_limits).0;
          })
          later).session
        (pos 12)
        1
        0
        9
        hard_limits).1
unfolding accept_request new active eqb_ℤ seq_after
old_number_is_refused_example =
    old_number_is_refused plain_net hard_limits (started plain_net hard_limits (pos 11) routes 0)
      (pos 11) 1 0 5 later (pos 12) 1 0 9 (inr (routes, refl)) (omega arith)
      (omega arith, (omega arith, tt)) (omega arith)

-- Two requests at once, two in a burst of one, and one after the window.
abbrev tight : SessionConfig
tight = record hard_limits {
  request_window = 10;
  request_window_count = 2;
  burst_window = 3;
  burst_count = 1;
}

rate_run_test : rate_run fresh tight [] (0 ∷ 1 ∷ 4 ∷ 8 ∷ 10 ∷ []) ≡ 0 ∷ 4 ∷ 10 ∷ []
unfolding rate_run accept_rate new
rate_run_test = refl

rate_run-eq-admit_all_example :
    rate_run fresh tight [] (0 ∷ 1 ∷ 4 ∷ 8 ∷ 10 ∷ []) ≡ admit_all tight [] (0 ∷ 1 ∷ 4 ∷ 8 ∷ 10 ∷ [])
unfolding new
rate_run-eq-admit_all_example =
    rate_run-eq-admit_all tight (omega arith) fresh (0 ∷ 1 ∷ 4 ∷ 8 ∷ 10 ∷ []) refl (omega arith)

rate_run_bounded_example :
    (count_within 10 9 (rate_run fresh tight [] (0 ∷ 1 ∷ 4 ∷ 8 ∷ 10 ∷ [])) ≤ 2)
    × (count_within 3 9 (rate_run fresh tight [] (0 ∷ 1 ∷ 4 ∷ 8 ∷ 10 ∷ [])) ≤ 1)
unfolding new
rate_run_bounded_example =
    rate_run_bounded tight (omega arith) fresh (0 ∷ 1 ∷ 4 ∷ 8 ∷ 10 ∷ []) refl (omega arith) 9

-- Two authorizations, and between them a reconnect, which does not give the first one back.
abbrev attempts : List (Event ℤ ℕ)
attempts =
    disconnected 2
    ∷ authorized (pos 11) 1 0 3
    ∷ reconnected (pos 11) (pos 12) 1 0 4
    ∷ disconnected 5
    ∷ authorized (pos 12) 2 0 6
    ∷ []

granted_bounded_example :
    0 + granted plain_net hard_limits (started plain_net hard_limits (pos 11) routes 0) attempts
    ≤ 10
unfolding new
granted_bounded_example =
    granted_bounded plain_net hard_limits (started plain_net hard_limits (pos 11) routes 0) attempts
      (omega arith)

granted_test :
    granted plain_net hard_limits (started plain_net hard_limits (pos 11) routes 0) attempts ≡ 2
unfolding granted is_granted step authorize_reconnect complete_reconnect detach new eqb_ℤ seq_after
    prune_from
granted_test = refl

-- Two responses are sent, the client is cut off, and comes back with the first acknowledged.
abbrev events : List (Event ℤ ℕ)
events =
    sent Message.player_info_rsp 70 1
    ∷ requested (pos 11) 1 0 2
    ∷ sent Message.use_item_rsp 80 2
    ∷ disconnected 3
    ∷ []

back :
    (complete_reconnect plain_net
      (run plain_net hard_limits (started plain_net hard_limits (pos 11) routes 0) events).session
      (pos 11)
      (pos 12)
      2
      1
      4
      hard_limits).1
    ≡ ok (record { replay = (103, 2, 1, 80) ∷ []; became_active = true })
unfolding complete_reconnect run new eqb_ℤ seq_after encode detach accept_request
    Message.is_outbox_message Message.as_u16 Message.from_u16 retain_message prune_from
back = refl

acked_early :
    (run plain_net hard_limits (started plain_net hard_limits (pos 11) routes 0) events).acked ≤ 1
unfolding run new eqb_ℤ seq_after encode detach accept_request Message.is_outbox_message
    Message.as_u16 Message.from_u16 retain_message prune_from
acked_early = omega arith

replay_is_exact_example :
    (103, 2, 1, 80) ∷ []
    ≡ map
        (λ m. m.payload)
        (filter
          (λ m. ltb 1 m.seq)
          (run plain_net hard_limits
            (started plain_net hard_limits (pos 11) routes 0)
            events).history)
replay_is_exact_example =
    replay_is_exact plain_net hard_limits (pos 11) routes 0 events (pos 11) (pos 12) 2 1 4
      (record { replay = (103, 2, 1, 80) ∷ []; became_active = true }) (omega arith) acked_early
      (omega arith) back
