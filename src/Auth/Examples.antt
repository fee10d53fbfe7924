-- ===== src/Auth/Examples.antt =====
-- Logins and roles at small inputs.
use xkk.Common.{
  ℕ, ◌≡◌, ◌≤◌, refl, true, false, Option, none, some, List, [], ◌∷◌, ◌++◌, if◌then◌else◌, ok, err,
  is_empty,
}
use xkk.Common.Int.{ℤ, pos, negsuc, ◌-ℤ◌, eqb_ℤ, ltb_ℤ, leb_ℤ}
use xkk.Common.Keys.{Map, get, insert, ◌==◌, int_key}
use xkk.Common.Bytes.{Bytes, bytes_key, eqb_bytes}
use xkk.Cache.Online.{OnlineData, set_token}
use xkk.Protocol.Status.{error_status}
use xkk.Protocol.Code
use xkk.Auth.{
  DeviceInfo, AuthLoginReq, Role, AccountData, Stores, LoginAnswers, credential_hash, invalid_login,
  load_or_create_account_locked, load_or_create_account, save_token, issue_first, issue_token,
  login,
}
use xkk.Auth.Queue.{remove_stale, rank, position, enqueue_login, enqueue_login_keeps_order}
use xkk.Auth.UseRole.{
  AuthUseRoleReq, Gate, UseRoleAnswers, available, invalid_role, verify_role, gate_endpoints,
  login_queue_entry_ttl, admit_role, place_role, use_role, tcp, port_key,
}
use xkk.Auth.Tokens.{IsVerified, login-verify_online}
use xkk.Auth.Accounts.{load_or_create_account_again}
use xkk.Auth.Admissions.{Admitted, use_role-Admitted}

-- A token that is the id itself.
abbrev encode : ℤ → Bytes → Option Bytes
encode (pos n) device_id = some (n ∷ [])
encode (negsuc n) device_id = some (n ∷ 0 ∷ [])

abbrev decode : Bytes → Bytes → Option ℤ
decode (n ∷ []) device_id = some (pos n)
decode (n ∷ m ∷ []) device_id = some (negsuc n)
decode _ device_id = none

decode-encode :
    (gid : ℤ) (device_id token : Bytes)
    → encode gid device_id ≡ some token
    → decode token device_id ≡ some gid
decode-encode (pos n) device_id token e = let same : n ∷ [] ≡ token = cc in rw (← same) refl
decode-encode (negsuc n) device_id token e = let same : n ∷ 0 ∷ [] ≡ token = cc in rw (← same) refl

abbrev itself : Bytes → Bytes
itself bytes = bytes

abbrev device : DeviceInfo
device = record {
  device_id = 1 ∷ 2 ∷ 3 ∷ 4 ∷ 5 ∷ 6 ∷ 7 ∷ 8 ∷ [];
  platform = [];
  client_version = [];
}

abbrev nothing : Stores
nothing = record { accounts = []; online = [] }

-- Everything works, and the new id is 77.
abbrev answers : LoginAnswers
answers = record {
  permit = true;
  global_allowed = some true;
  per_ip_allowed = some true;
  locked = some true;
  loads = true;
  saves = true;
  new_gid = pos 77;
  new_name = 80 ∷ [];
  now = pos 1_000;
  token_saved = true;
}

abbrev first_role : Role
first_role = record { gid = pos 77; sid = pos 0; name = 80 ∷ []; level = pos 1; icon = pos 0 }

abbrev request : AuthLoginReq
request = record { account = 65 ∷ []; credential = 66 ∷ []; device = some device }

logs_in : (login itself encode nothing request answers).1.roles ≡ first_role ∷ []
unfolding login invalid_login load_or_create_account load_or_create_account_locked issue_token
    issue_first save_token set_token get insert
logs_in = refl

login-verify_online_example :
    IsVerified encode decode decode-encode device.device_id
      (login itself encode nothing request answers)
      first_role
login-verify_online_example =
    login-verify_online encode decode decode-encode itself nothing (65 ∷ []) (66 ∷ []) device
      answers first_role [] logs_in

abbrev account : AccountData
account = record {
  account = 65 ∷ [];
  credential_hash = 65 ∷ 0 ∷ 66 ∷ [];
  roles = first_role ∷ [];
  created_at = pos 1_000;
}

creates : (load_or_create_account itself nothing (65 ∷ []) (66 ∷ []) answers).1 ≡ ok account
unfolding load_or_create_account load_or_create_account_locked credential_hash get insert
creates = refl

load_or_create_account_again_example :
    let s = (load_or_create_account itself nothing (65 ∷ []) (66 ∷ []) answers).0 in
    load_or_create_account itself s (65 ∷ []) (67 ∷ []) answers ≡ (
      s,
      if credential_hash itself (65 ∷ []) (66 ∷ []) == credential_hash itself (65 ∷ []) (67 ∷ [])
          then ok account
          else err (error_status Code.unauthenticated "credential mismatch"),
    )
load_or_create_account_again_example =
    load_or_create_account_again itself nothing (65 ∷ []) (66 ∷ []) (67 ∷ []) answers answers
      account creates refl refl

-- The members in the order of their ids.
abbrev waiting : Map ℤ ℤ
waiting = (pos 5, pos 100) ∷ (pos 6, pos 90_000) ∷ (pos 7, pos 90_001) ∷ []

found : get (pos 7) waiting ≡ some (pos 90_001)
unfolding get eqb_ℤ
found = refl

fresh : leb_ℤ (pos 90_001) (pos 100_000 -ℤ pos 30_000) ≡ false
unfolding ◌-ℤ◌
fresh = refl

enqueue_login_keeps_order_example :
    let q = (enqueue_login ltb_ℤ waiting (pos 77) (pos 100_000) (pos 30_000)).0 in
    (get (pos 7) q ≡ some (pos 90_001))
    × (position ltb_ℤ (pos 7) q ≤ position ltb_ℤ (pos 7) waiting)
enqueue_login_keeps_order_example =
    enqueue_login_keeps_order ltb_ℤ waiting (pos 7) (pos 90_001) (pos 77) (pos 100_000) (pos 30_000)
      found fresh refl

abbrev role_request : AuthUseRoleReq
role_request = record { gid = pos 77; token = 77 ∷ []; device_id = device.device_id }

abbrev gate : Gate
gate = record {
  enable = true;
  healthy = true;
  online_count = pos 9_990;
  host = 103 ∷ [];
  meta_data = (tcp ++ port_key, 51 ∷ []) ∷ [];
}

abbrev role_answers : UseRoleAnswers
role_answers = record {
  permit = true;
  decoded = some (pos 77);
  online = ok (
      some (record {
        account = 65 ∷ [];
        gid = pos 77;
        token = 77 ∷ [];
        session = pos 0;
        login_time = pos 0;
        logout_time = pos 0;
        public_id = pos 0;
        gate_id = pos 0;
        logic_id = pos 0;
      }));
  gates = some (gate ∷ []);
  now_ms = pos 100_000;
  now = pos 100;
  joins = true;
  leaves = true;
  admission = some true;
  picked = some gate;
}

-- A port is its first byte.
abbrev first_byte : Bytes → Option ℕ
first_byte [] = none
first_byte (b ∷ bs) = some b

offers : is_empty (use_role first_byte ltb_ℤ waiting role_request role_answers).1.endpoints ≡ false
unfolding use_role invalid_role verify_role place_role admit_role gate_endpoints enqueue_login
    remove_stale position rank available get insert eqb_ℤ eqb_bytes ◌-ℤ◌
offers = refl

use_role-Admitted_example :
    (gates : List Gate) × (role_answers.gates ≡ some gates)
    × (role_answers.decoded ≡ some role_request.gid)
    × ((online : OnlineData) × (role_answers.online ≡ ok (some online))
        × (online.token ≡ role_request.token))
    × ((enqueue_login ltb_ℤ waiting (pos 77) (pos 100_000) login_queue_entry_ttl).1
        ≤ available gates)
    × Admitted first_byte
        (enqueue_login ltb_ℤ waiting (pos 77) (pos 100_000) login_queue_entry_ttl).0
        role_request
        (enqueue_login ltb_ℤ waiting (pos 77) (pos 100_000) login_queue_entry_ttl).1
        role_answers
        (use_role first_byte ltb_ℤ waiting role_request role_answers)
use_role-Admitted_example =
    use_role-Admitted first_byte ltb_ℤ waiting role_request role_answers offers
