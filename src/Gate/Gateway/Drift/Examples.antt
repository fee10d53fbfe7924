-- ===== src/Gate/Gateway/Drift/Examples.antt =====
-- A kick and a logout of one session that overlap.
use xkk.Common.{ℕ, ◌≡◌, refl, List, [], ◌∷◌, ok}
use xkk.Common.Int.{ℤ, pos, eqb_ℤ}
use xkk.Common.Keys.{get, insert, remove}
use xkk.Common.Keys.Totals.{total}
use xkk.Gate.Session.{Net, Routes, hard_limits, new, active, encode}
use xkk.Gate.Sessions.{install_login, invalidate}
use xkk.Gate.Gateway.{increment, decrement}
use xkk.Gate.Gateway.Drift.{
  Section, installs, takes_conn, removes, invalidates, counts_up, counts_down, Gate, take_conn,
  step, run,
}

abbrev net : Net ℤ ℕ ℕ (Unit {0})
net = record {
  conn_session_id = λ c. c;
  system_msg_id_end = 100;
  encode_message = λ msgid seq ack m. ok msgid;
}

abbrev routes : Routes
routes = record { logic_id = pos 1; public_id = pos 2 }

-- Two players log in; the kick of one takes its connection while it logs out, and both lower the counter.
abbrev overlap : List (Section ℤ ℕ)
overlap =
    installs (pos 7) (pos 11) routes 0
    ∷ counts_up
    ∷ installs (pos 8) (pos 12) routes 0
    ∷ counts_up
    ∷ takes_conn (pos 7) (pos 11) 0 5
    ∷ invalidates (pos 7) (pos 11)
    ∷ removes (pos 7)
    ∷ counts_down
    ∷ counts_down
    ∷ []

abbrev begin : Gate ℤ ℕ
begin = record { sessions = []; online_count = pos 0; ups = 0; downs = 0; slips = 0 }

-- The counter is 0 although the second player is still connected.
counted_twice : (run net hard_limits begin overlap).online_count ≡ pos 0
unfolding run step install_login take_conn invalidate new active encode increment decrement total
    insert get remove eqb_ℤ xkk.Common.Int.◌+ℤ◌ xkk.Common.Int.◌-ℤ◌
counted_twice = refl
