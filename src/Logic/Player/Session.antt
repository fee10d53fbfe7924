-- ===== src/Logic/Player/Session.antt =====
-- `login` and `disconnect` of service/logic/src/player.rs.
use xkk.Common.{◌≡◌, refl, inl, inr, true, false, ◌&&◌, none, if◌then◌else◌, Bool-cases}
use xkk.Common.Int.{ℤ, eqb_ℤ}
use xkk.Common.Keys.{int_key}
use xkk.Logic.Player.{PlayerState, login, disconnect}

-- After a login, the disconnect of exactly that gate and session takes the player offline and says so;
-- the disconnect of any other, an earlier one that comes late for instance, changes nothing.
pub disconnect-login :
    (s : PlayerState) (gate_id session_id gate session : ℤ)
    → disconnect (login s gate_id session_id).0 gate session ≡ (
        if eqb_ℤ gate_id gate && eqb_ℤ session_id session
        then (record s { session = none }, true)
        else ((login s gate_id session_id).0, false))
unfolding disconnect login
disconnect-login s gate_id session_id gate session =
    elim (Bool-cases (eqb_ℤ gate_id gate && eqb_ℤ session_id session)) [
      | inl e ↦ rw e refl
      | inr e ↦ rw e refl
    ]
