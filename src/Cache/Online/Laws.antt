-- ===== src/Cache/Online/Laws.antt =====
-- Reading the online state back, and which writes leave what alone.
use xkk.Common.{ℕ, ◌<◌, ◌≤◌, ◌^◌, ◌/◌, ◌*◌, refl, ◌≡◌, ◌≢◌, true, false, ◌+◌, some, arith, ok}
use xkk.Common.Int.{ℤ, negsuc, eqb_ℤ, eqb_ℤ_refl, pos, ◌<ℤ◌, eqb_ℤ_iff}
use xkk.Common.Bytes.{Bytes}
use native.Mathlib.Nat.{le-div_iff_mul-le, mul-pos}
use xkk.Cache.Online.{
  spacing, nearest, tonumber, OnlineData, Fields, load_online, save_online, set_token,
  set_logic_owner, clear_gate_by_session,
}

-- What a login saved is loaded again; what the hash held before does not matter.
pub load_online-save_online :
    (f : Fields) (d : OnlineData)
    → pos 0 <ℤ d.gid
    → load_online (save_online f d).0 d.gid ≡ ok (some d)
unfolding load_online save_online
load_online-save_online f d h = ground arith

spacing_one : (n : ℕ) → n < 2 ^ 53 → spacing 11 n ≡ 1
unfolding spacing
spacing_one n h = ground arith

spacing_fits : (n : ℕ) → 0 < n → (0 < spacing 11 n) × (spacing 11 n ≤ n)
unfolding spacing
spacing_fits n h = ground arith

nearest_one : (n : ℕ) → nearest 1 n ≡ n
unfolding nearest
nearest_one n = ground arith

-- A session id below 2^53 is a double.
tonumber_exact : (n : ℕ) → n < 2 ^ 53 → tonumber (pos n) ≡ pos n
unfolding tonumber
tonumber_exact n h = rw (spacing_one n h, nearest_one n) refl

nearest_positive : (d n : ℕ) → 0 < d → d ≤ n → 0 < nearest d n
unfolding nearest
nearest_positive d n h k =
    let q : 1 ≤ n / d = (le-div_iff_mul-le h).1 (omega (arith, k)) in
    let one : 0 < n / d * d = mul-pos (omega (arith, q)) h in
    let next : 0 < (n / d + 1) * d = mul-pos (omega arith) h in ground (arith, one, next)

tonumber_zero : tonumber (pos 0) ≡ pos 0
unfolding tonumber spacing nearest
tonumber_zero = refl

tonumber_positive : (a : ℤ) → pos 0 <ℤ a → eqb_ℤ (tonumber (pos 0)) (tonumber a) ≡ false
unfolding tonumber
tonumber_positive (pos n) h =
    let (some_space, fits) = spacing_fits n (omega (arith, h)) in
    let positive = nearest_positive (spacing 11 n) n some_space fits in
    rw tonumber_zero (ground (arith, positive, eqb_ℤ_iff (pos 0) (pos (nearest (spacing 11 n) n))))
tonumber_positive (negsuc n) h = absurd (omega (arith, h))

-- A cleanup for a session other than the saved one, such as that of an older connection which comes
-- late, changes nothing, where both session ids are natural numbers below 2^53: the saved state is
-- loaded as it was.
pub late_cleanup_keeps_login :
    (f : Fields) (d : OnlineData) (current session : ℕ) (logout_time : ℤ)
    → pos 0 <ℤ d.gid
    → d.session ≡ pos current
    → current < 2 ^ 53
    → session < 2 ^ 53
    → current ≢ session
    → let (f', cleared) = clear_gate_by_session (save_online f d).0 (pos session) logout_time in
      (load_online f' d.gid ≡ ok (some d)) × (cleared ≡ false)
unfolding load_online save_online clear_gate_by_session
late_cleanup_keeps_login f d current session logout_time h e small small' n =
    let differs : eqb_ℤ (tonumber d.session) (tonumber (pos session)) ≡ false =
      rw (e, tonumber_exact current small, tonumber_exact session small')
        (ground (arith, n, eqb_ℤ_iff (pos current) (pos session))) in
    ground (arith, differs)

-- The cleanup of the saved session takes the player off its gate: gate and session read as 0 and
-- the logout time as given, while the account, the token, the Logic owner and the rest stay. The
-- same cleanup a second time does nothing, where the session is not 0.
pub cleanup_leaves_gate :
    (f : Fields) (d : OnlineData) (logout_time later : ℤ)
    → pos 0 <ℤ d.gid
    → pos 0 <ℤ d.session
    → let (f', cleared) = clear_gate_by_session (save_online f d).0 d.session logout_time in
      (cleared ≡ true)
      × (load_online f' d.gid
          ≡ ok (some (record d { gate_id = pos 0; session = pos 0; logout_time = logout_time })))
      × (clear_gate_by_session f' d.session later ≡ (f', false))
unfolding load_online save_online clear_gate_by_session
cleanup_leaves_gate f d logout_time later h k =
    ground (arith, eqb_ℤ_refl (tonumber d.session), tonumber_positive d.session k)

-- A new token and a new Logic owner change just their own fields of the saved state, in either
-- order.
token_and_owner_commute :
    (f : Fields) (d : OnlineData) (token : Bytes) (logic_id : ℤ)
    → pos 0 <ℤ d.gid
    → let saved = (save_online f d).0 in
      let owned = (set_logic_owner saved d.gid logic_id).0 in
      let renewed = (set_token saved d.gid d.account token).0 in
      ((set_token owned d.gid d.account token).0 ≡ (set_logic_owner renewed d.gid logic_id).0)
      × (load_online (set_token owned d.gid d.account token).0 d.gid
          ≡ ok (some (record d { token = token; logic_id = logic_id })))
unfolding load_online save_online set_token set_logic_owner
token_and_owner_commute f d token logic_id h = ground arith
