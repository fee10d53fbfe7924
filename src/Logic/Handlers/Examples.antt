-- ===== src/Logic/Handlers/Examples.antt =====
-- Logins and disconnects of one player.
use xkk.Common.{ℕ, ◌≡◌, refl, true, false, none, some, List, [], ◌∷◌}
use xkk.Common.Int.{ℤ, pos, eqb_ℤ}
use xkk.Common.Keys.{Map, get, insert, int_key}
use xkk.Gate.Gateway.{LogicLoginReq, increment, decrement}
use xkk.Logic.Runtime.{RejectReason}
use xkk.Logic.Player.{PlayerState, login, disconnect}
use xkk.Logic.Handlers.{rejected, executed, use_player, login_with}
use xkk.Logic.Handlers.Counter.{
  Part, executes_login, executes_disconnect, counts_up, counts_down, Counter, step, run,
}

abbrev offline : Map ℤ PlayerState
offline =
    (
      pos 7,
      record {
        player = record { gid = pos 7; profile = none; items = [] };
        session = none;
        dirty = false;
      },
    )
    ∷ []

abbrev login_at : ℤ → ℕ → LogicLoginReq
login_at gate_id session = record {
  gid = pos 7;
  gate_id = gate_id;
  player_session = pos session;
  device_id = [];
  reconnect = false;
}

-- A login, its disconnect, which counts down first, and a login that the runtime rejects.
abbrev parts : List Part
parts =
    executes_login (pos 7) (login_at (pos 1) 11) (executed none)
    ∷ executes_disconnect (pos 7) (pos 1) (pos 11) (executed none)
    ∷ counts_down
    ∷ counts_up
    ∷ executes_login (pos 7) (login_at (pos 2) 12) (rejected RejectReason.gid)
    ∷ []

abbrev begin : Counter
begin = record { players = offline; online_count = pos 0; ups = 0; downs = 0; floored = false }

-- The counter was 0 when it was to go down, and is 1 with nobody online.
floored_count : (run (pos 4) begin parts).online_count ≡ pos 1
unfolding run step use_player login_with login disconnect increment decrement insert get eqb_ℤ
    xkk.Common.Int.◌+ℤ◌
floored_count = refl
