-- ===== src/Cache/Online/Examples.antt =====
-- The laws of the online state at one player.
use xkk.Common.{◌≡◌, refl, true, some, [], ◌∷◌, arith, ok}
use xkk.Common.Int.{eqb_ℤ, pos}
use xkk.Cache.Online.{
  tonumber, OnlineData, load_online, save_online, clear_gate_by_session, no_fields,
}
use xkk.Cache.Online.Laws.{load_online-save_online, late_cleanup_keeps_login, cleanup_leaves_gate}

abbrev online_seven : OnlineData
online_seven = record {
  account = b'a' ∷ [];
  gid = pos 7;
  token = b't' ∷ [];
  session = pos 9;
  login_time = pos 100;
  logout_time = pos 0;
  public_id = pos 4;
  gate_id = pos 3;
  logic_id = pos 2;
}

load_online-save_online_example :
    load_online (save_online no_fields online_seven).0 (pos 7) ≡ ok (some online_seven)
load_online-save_online_example = load_online-save_online no_fields online_seven (omega arith)

late_cleanup_keeps_login_example :
    load_online
      (clear_gate_by_session (save_online no_fields online_seven).0 (pos 8) (pos 200)).0
      (pos 7)
    ≡ ok (some online_seven)
late_cleanup_keeps_login_example =
    (late_cleanup_keeps_login no_fields online_seven 9 8 (pos 200) (omega arith) refl (omega arith)
      (omega arith) (λ e. ground arith)).0

-- Two session ids beyond 2^53 that are the same double: the cleanup of the one clears the other.
large_sessions :
    (clear_gate_by_session
      (save_online no_fields (record online_seven { session = pos 9_007_199_254_740_993 })).0
      (pos 9_007_199_254_740_992)
      (pos 200)).1
    ≡ true
unfolding clear_gate_by_session save_online tonumber eqb_ℤ
large_sessions = refl

cleanup_leaves_gate_example :
    (clear_gate_by_session (save_online no_fields online_seven).0 (pos 9) (pos 200)).1 ≡ true
cleanup_leaves_gate_example =
    (cleanup_leaves_gate no_fields online_seven (pos 200) (pos 300) (omega arith) (omega arith)).0
