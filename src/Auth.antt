-- ===== src/Auth.antt =====
-- service/auth/src/api.rs: the login of an account and the choice of a Gate for a role. What Redis, the
-- token coder, the limiters and the registry of the frame answer is given to each request. Here: the
-- messages and the login; the rest is below.
pub mod Queue
pub mod UseRole
pub mod Admissions
pub mod Tokens
pub mod Accounts
mod Examples
use Prim.Native.String.{String}
use xkk.Common.{
  ℕ, Bool, true, false, not, ◌&&◌, ◌||◌, Option, none, some, List, [], ◌∷◌, ◌++◌, is_empty, length,
  ltb, if◌then◌else◌, unwrap_or, Result, ok, err,
}
use xkk.Common.Int.{ℤ, pos}
use xkk.Common.Keys.{Map, get, insert, ◌==◌, int_key}
use xkk.Common.Bytes.{Bytes, bytes_key}
use xkk.Cache.Online.{Fields, no_fields, OnlineError, set_token}
use xkk.Protocol.Status.{Status, ok_status, error_status}
use xkk.Protocol.Code

pub record DeviceInfo : Type 0 where
  pub device_id : Bytes
  pub platform : Bytes
  pub client_version : Bytes

pub record AuthLoginReq : Type 0 where
  pub account : Bytes
  pub credential : Bytes
  pub device : Option DeviceInfo

pub record Role : Type 0 where
  pub gid : ℤ
  pub sid : ℤ
  pub name : Bytes
  pub level : ℤ
  pub icon : ℤ

pub record AccountData : Type 0 where
  pub account : Bytes
  pub credential_hash : Bytes
  pub roles : List Role
  pub created_at : ℤ

pub record AuthLoginRsp : Type 0 where
  pub status : Status
  pub account : Bytes
  pub token : Bytes
  pub roles : List Role
  pub created_at : ℤ

-- The documents of the accounts, and the online states in Redis.
pub record Stores : Type 0 where
  pub accounts : Map Bytes AccountData
  pub online : Map ℤ Fields

-- What the other systems answer to a login: whether there is a slot for the request, whether each limiter
-- allows it (`none` is an error), whether the lock of the account is taken (`none` is an error), whether
-- the account can be loaded and saved, a new id, the name of its role, the time, and whether Redis takes
-- the token.
pub record LoginAnswers : Type 0 where
  pub permit : Bool
  pub global_allowed : Option Bool
  pub per_ip_allowed : Option Bool
  pub locked : Option Bool
  pub loads : Bool
  pub saves : Bool
  pub new_gid : ℤ
  pub new_name : Bytes
  pub now : ℤ
  pub token_saved : Bool

abbrev pub login_error : ℤ → String → AuthLoginRsp
login_error code message = record {
  status = error_status code message;
  account = [];
  token = [];
  roles = [];
  created_at = pos 0;
}

-- `credential_hash` of common/src/lib.rs; the digest is that of SHA-256, in hexadecimal.
unfoldable pub credential_hash : (Bytes → Bytes) → Bytes → Bytes → Bytes
credential_hash digest account credential = digest (account ++ (0 ∷ credential))

unfoldable pub invalid_login : AuthLoginReq → DeviceInfo → Bool
invalid_login request device =
    is_empty request.account
    || ltb 64 (length request.account)
    || is_empty request.credential
    || ltb 256 (length request.credential)
    || ltb (length device.device_id) 8

-- The `match` on both limiters; `some` is the error.
limited : Option Bool → Option Bool → Option AuthLoginRsp
limited (some global) (some per_ip) =
    if global && per_ip then none else some (login_error Code.rate_limited "login rate exceeded")
limited _ _ = some (login_error Code.internal "login limiter failed")

module _ (digest : Bytes → Bytes) where
  -- `load_or_create_account_locked`
  unfoldable pub load_or_create_account_locked :
      Stores → Bytes → Bytes → LoginAnswers → Stores × Result AccountData Status
  load_or_create_account_locked s account credential w =
      let hash = credential_hash digest account credential in
      let created : AccountData = record {
        account = account;
        credential_hash = hash;
        roles =
            record { gid = w.new_gid; sid = pos 0; name = w.new_name; level = pos 1; icon = pos 0 }
            ∷ [];
        created_at = w.now;
      } in
      if not w.loads
      then (s, err (error_status Code.internal "account load failed"))
      else elim (get account s.accounts) [
        | some found ↦
            if found.credential_hash == hash
            then (s, ok found)
            else (s, err (error_status Code.unauthenticated "credential mismatch"))
        | none ↦
            if w.saves
            then (record s { accounts = insert account created s.accounts }, ok created)
            else (s, err (error_status Code.internal "account create failed"))
      ]

  unfoldable pub load_or_create_account :
      Stores → Bytes → Bytes → LoginAnswers → Stores × Result AccountData Status
  load_or_create_account s account credential w = elim w.locked [
    | none ↦ (s, err (error_status Code.internal "account lock failed"))
    | some locked ↦
        if locked
        then load_or_create_account_locked s account credential w
        else (s, err (error_status Code.rate_limited "account login in progress"))
  ]

-- The save of the token; Redis may refuse it.
unfoldable pub save_token :
    Stores
    → ℤ
    → AccountData
    → Bytes
    → LoginAnswers
    → Fields × Result (Unit {0}) OnlineError
    → Stores × AuthLoginRsp
save_token s gid account token w (fields, err _) =
    (s, login_error Code.internal "token save failed")
save_token s gid account token w (fields, ok _) =
    if not w.token_saved then (s, login_error Code.internal "token save failed") else (
      record s { online = insert gid fields s.online },
      record {
        status = ok_status;
        account = account.account;
        token = token;
        roles = account.roles;
        created_at = account.created_at;
      },
    )

module _ (encode : ℤ → Bytes → Option Bytes) where
  -- The token for the first role of the account.
  unfoldable pub issue_first :
      DeviceInfo → LoginAnswers → Stores → AccountData → List Role → Stores × AuthLoginRsp
  issue_first device w s account [] = (s, login_error Code.conflict "account has no role")
  issue_first device w s account (role ∷ roles) = elim (encode role.gid device.device_id) [
    | none ↦ (s, login_error Code.internal "token encode failed")
    | some token ↦
        save_token s role.gid account token w
          (set_token (unwrap_or (get role.gid s.online) no_fields) role.gid account.account token)
  ]

  unfoldable pub issue_token :
      DeviceInfo → LoginAnswers → Stores × Result AccountData Status → Stores × AuthLoginRsp
  issue_token device w (s, err status) =
      (s, record { status = status; account = []; token = []; roles = []; created_at = pos 0 })
  issue_token device w (s, ok account) = issue_first device w s account account.roles

module _ (digest : Bytes → Bytes) (encode : ℤ → Bytes → Option Bytes) where
  unfoldable pub login : Stores → AuthLoginReq → LoginAnswers → Stores × AuthLoginRsp
  unfolding limited
  login s request w =
      if not w.permit
      then (s, login_error Code.overloaded "Auth request capacity exhausted")
      else elim request.device [
        | none ↦ (s, login_error Code.invalid_argument "device is required")
        | some device ↦
            if invalid_login request device
            then (s, login_error Code.invalid_argument "invalid Auth login request")
            else elim (limited w.global_allowed w.per_ip_allowed) [
              | some error ↦ (s, error)
              | none ↦
                  issue_token encode device w
                    (load_or_create_account digest s request.account request.credential w)
            ]
      ]
