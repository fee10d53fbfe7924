-- ===== src/Cache/Online.antt =====
-- cache/src/online.rs: the online state of a player, a Redis hash. The hash is the optional values of
-- its fields, as numbers and texts; that each function is one atomic command, pipeline or script of
-- Redis is taken from it. The texts of the number fields parse. The life time of 30 days that a write
-- of the state or of the token sets is left out: a load comes before its end.
pub mod Laws
mod Examples
use xkk.Common.{
  zero, suc, ◌+◌, ◌-◌, ◌*◌, ◌/◌, ◌%◌, ◌^◌, ltb, eqb, ◌||◌, ◌&&◌, ℕ, Bool, true, false, not, Option,
  none, some, if◌then◌else◌, unwrap_or, Result, ok, err, is_some,
}
use xkk.Common.Int.{ℤ, pos, negsuc, leb_ℤ, eqb_ℤ}
use xkk.Common.Keys.{◌==◌, int_key}
use xkk.Common.Bytes.{Bytes}
use mathlib.Core.List.{[]}

pub record OnlineData : Type 0 where
  pub account : Bytes
  pub gid : ℤ
  pub token : Bytes
  pub session : ℤ
  pub login_time : ℤ
  pub logout_time : ℤ
  pub public_id : ℤ
  pub gate_id : ℤ
  pub logic_id : ℤ

-- The fields `acc`, `gid`, `token`, `sess`, `lgin`, `lgou`, `psid`, `gsid` and `lsid`.
pub record Fields : Type 0 where
  pub acc : Option Bytes
  pub gid : Option ℤ
  pub token : Option Bytes
  pub sess : Option ℤ
  pub lgin : Option ℤ
  pub lgou : Option ℤ
  pub psid : Option ℤ
  pub gsid : Option ℤ
  pub lsid : Option ℤ

-- The fields of a key that does not exist.
abbrev pub no_fields : Fields
no_fields = record {
  acc = none;
  gid = none;
  token = none;
  sess = none;
  lgin = none;
  lgou = none;
  psid = none;
  gsid = none;
  lsid = none;
}

pub data OnlineError : Type 0 where
  invalid_gid : OnlineError

no_field : Fields → Bool
no_field f =
    if is_some f.acc
    then false
    else if is_some f.gid
    then false
    else if is_some f.token
    then false
    else if is_some f.sess
    then false
    else if is_some f.lgin
    then false
    else if is_some f.lgou
    then false
    else if is_some f.psid
    then false
    else if is_some f.gsid
    then false
    else if is_some f.lsid
    then false
    else true

unfoldable pub load_online : Fields → ℤ → Result (Option OnlineData) OnlineError
unfolding no_field
load_online f gid =
    if leb_ℤ gid (pos 0)
    then err invalid_gid
    else if no_field f
    then ok none
    else ok (
        some (record {
          account = unwrap_or f.acc [];
          gid = unwrap_or f.gid gid;
          token = unwrap_or f.token [];
          session = unwrap_or f.sess (pos 0);
          login_time = unwrap_or f.lgin (pos 0);
          logout_time = unwrap_or f.lgou (pos 0);
          public_id = unwrap_or f.psid (pos 0);
          gate_id = unwrap_or f.gsid (pos 0);
          logic_id = unwrap_or f.lsid (pos 0);
        }))

unfoldable pub save_online : Fields → OnlineData → Fields × Result (Unit {0}) OnlineError
save_online f d = if leb_ℤ d.gid (pos 0) then (f, err invalid_gid) else (
  record {
    acc = some d.account;
    gid = some d.gid;
    token = some d.token;
    sess = some d.session;
    lgin = some d.login_time;
    lgou = some d.logout_time;
    psid = some d.public_id;
    gsid = some d.gate_id;
    lsid = some d.logic_id;
  },
  ok tt,
)

unfoldable pub set_token : Fields → ℤ → Bytes → Bytes → Fields × Result (Unit {0}) OnlineError
set_token f gid account token =
    if leb_ℤ gid (pos 0)
    then (f, err invalid_gid)
    else (record f { acc = some account; gid = some gid; token = some token }, ok tt)

unfoldable pub set_logic_owner : Fields → ℤ → ℤ → Fields × Result (Unit {0}) OnlineError
set_logic_owner f gid logic_id =
    if leb_ℤ gid (pos 0) then (f, err invalid_gid) else (record f { lsid = some logic_id }, ok tt)

-- The distance of the doubles at a natural number below 2^64: 2^e from 2^(52 + e) on.
spacing : ℕ → ℕ → ℕ
spacing zero n = 1
spacing (suc e) n = let finer = spacing e n in if ltb n (2 ^ (53 + e)) then finer else 2 ^ suc e

-- The nearest multiple of a distance, the even one of two.
nearest : ℕ → ℕ → ℕ
nearest d n =
    let q = n / d in
    let r = n % d in
    if ltb (2 * r) d || (eqb (2 * r) d && eqb (q % 2) 0) then q * d else (q + 1) * d

-- `tonumber` of the text of an i64, in the script below: the nearest double, as an integer.
unfoldable pub tonumber : ℤ → ℤ
unfolding nearest spacing
tonumber (pos n) = pos (nearest (spacing 11 n) n)
tonumber (negsuc n) = negsuc (nearest (spacing 11 (suc n)) (suc n) - 1)

-- The script of `clear_gate_by_session`.
unfoldable pub clear_gate_by_session : Fields → ℤ → ℤ → Fields × Bool
clear_gate_by_session f session logout_time = elim f.sess [
  | none ↦ (f, false)
  | some current ↦
      if not (tonumber current == tonumber session)
      then (f, false)
      else (record f { gsid = some (pos 0); sess = some (pos 0); lgou = some logout_time }, true)
]
