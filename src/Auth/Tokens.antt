-- ===== src/Auth/Tokens.antt =====
-- The login of an account: the Gate verifies the token that it answers.
use xkk.Common.{
  ◌≡◌, refl, sym, ap, subst, ◌⊎◌, true, false, Option, none, some, List, [], ◌∷◌, arith, unwrap_or,
  Result, ok, err, inl, inr, Bool-cases, Option-cases, ◌∙◌,
}
use xkk.Common.Int.{ℤ, pos, leb_ℤ, eqb_ℤ_iff}
use xkk.Common.Keys.{Map, get, insert, get-insert, int_key}
use xkk.Common.Bytes.{Bytes, bytes_key, eqb_bytes_iff}
use xkk.Cache.Online.{OnlineData, Fields, no_fields, set_token, load_online}
use xkk.Gate.Gateway.Login.{verify_online}
use xkk.Protocol.Status.{Status, ok_status}
use xkk.Auth.{
  DeviceInfo, AuthLoginReq, Role, AccountData, AuthLoginRsp, Stores, LoginAnswers,
  load_or_create_account, save_token, issue_first, issue_token, login, limited,
}

-- The online state that is loaded after a token was saved.
abbrev tokened : Fields → ℤ → Bytes → Bytes → OnlineData
tokened f gid account token = record {
  account = account;
  gid = gid;
  token = token;
  session = unwrap_or f.sess (pos 0);
  login_time = unwrap_or f.lgin (pos 0);
  logout_time = unwrap_or f.lgou (pos 0);
  public_id = unwrap_or f.psid (pos 0);
  gate_id = unwrap_or f.gsid (pos 0);
  logic_id = unwrap_or f.lsid (pos 0);
}

-- An online state with a new token is verified with this token.
set_token-verify_online :
    (f : Fields) (gid : ℤ) (account token : Bytes)
    → leb_ℤ gid (pos 0) ≡ false
    → verify_online gid token (record {
      decoded_gid = some gid;
      loaded = load_online (set_token f gid account token).0 gid;
    })
      ≡ some (tokened f gid account token)
unfolding verify_online load_online set_token
set_token-verify_online f gid account token h =
    ground (arith, eqb_ℤ_iff gid gid, eqb_bytes_iff token token)

module _ (s : Stores) (gid : ℤ) (account : AccountData) (token : Bytes) (w : LoginAnswers) where
  abbrev before : Fields
  before = unwrap_or (get gid s.online) no_fields

  abbrev saving : Stores × AuthLoginRsp
  saving = save_token s gid account token w (set_token before gid account.account token)

  save_token_refused : leb_ℤ gid (pos 0) ≡ true → saving.1.roles ≡ []
  unfolding save_token set_token
  save_token_refused p = rw p refl

  save_token_fails : leb_ℤ gid (pos 0) ≡ false → w.token_saved ≡ false → saving.1.roles ≡ []
  unfolding save_token set_token
  save_token_fails p q = ground arith

  save_token_lem :
      leb_ℤ gid (pos 0) ≡ false
      → w.token_saved ≡ true
      → saving ≡ (
        record s { online = insert gid (set_token before gid account.account token).0 s.online },
        record {
          status = ok_status;
          account = account.account;
          token = token;
          roles = account.roles;
          created_at = account.created_at;
        },
      )
  unfolding save_token set_token
  save_token_lem p q = ground arith

no_roles : {r : Role} {rs roles : List Role} → roles ≡ [] → roles ≡ r ∷ rs → true ≡ false
no_roles e h = absurd (cc)

impossible {ℓ} : {A : Type ℓ} → true ≡ false → A
impossible e = absurd (cc)

same_head : {r r' : Role} {rs rs' : List Role} → r ∷ rs ≡ r' ∷ rs' → r ≡ r'
same_head e = cc

found_again :
    {V : Type 0} (gid : ℤ) (v d : V) (m : Map ℤ V) → unwrap_or (get gid (insert gid v m)) d ≡ v
found_again gid v d m = ground (arith, get-insert gid gid v m, eqb_ℤ_iff gid gid)

module _ (encode : ℤ → Bytes → Option Bytes) (decode : Bytes → Bytes → Option ℤ)
    (decode-encode : (gid : ℤ) (device_id token : Bytes)
      → encode gid device_id ≡ some token
      → decode token device_id ≡ some gid) where
  -- The Gate verifies the token of a response with the online states that it left.
  pub record IsVerified (device_id : Bytes) (r : Stores × AuthLoginRsp) (role : Role) : Type 0 where
    pub online : OnlineData
    pub verified :
        verify_online role.gid r.1.token (record {
          decoded_gid = decode r.1.token device_id;
          loaded = load_online (unwrap_or (get role.gid r.0.online) no_fields) role.gid;
        })
        ≡ some online
    pub own : online.account ≡ r.1.account
    pub success : r.1.status ≡ ok_status

  save_token-IsVerified :
      (s : Stores) (device_id : Bytes) (account : AccountData) (token : Bytes) (w : LoginAnswers)
      (role : Role) (roles : List Role)
      → encode role.gid device_id ≡ some token
      → (saving s role.gid account token w).1.roles ≡ role ∷ roles
      → IsVerified device_id (saving s role.gid account token w) role
  save_token-IsVerified s device_id account token w role roles e h =
      elim (Bool-cases (leb_ℤ role.gid (pos 0))) [
        | inl p ↦ impossible (no_roles (save_token_refused s role.gid account token w p) h)
        | inr p ↦ elim (Bool-cases w.token_saved) [
          | inr q ↦ impossible (no_roles (save_token_fails s role.gid account token w p q) h)
          | inl q ↦
              let f = before s role.gid account token w in
              rw (save_token_lem s role.gid account token w p q) (record {
                online = tokened f role.gid account.account token;
                verified = rw (decode-encode role.gid device_id token e) (
                    rw
                      (found_again role.gid (set_token f role.gid account.account token).0 no_fields
                        s.online)
                      (set_token-verify_online f role.gid account.account token p));
                own = refl;
                success = refl;
              })
        ]
      ]

  saved_roles :
      (s : Stores) (gid : ℤ) (account : AccountData) (token : Bytes) (w : LoginAnswers)
      (role : Role) (roles : List Role)
      → (saving s gid account token w).1.roles ≡ role ∷ roles
      → account.roles ≡ role ∷ roles
  saved_roles s gid account token w role roles h = elim (Bool-cases (leb_ℤ gid (pos 0))) [
    | inl p ↦ impossible (no_roles (save_token_refused s gid account token w p) h)
    | inr p ↦ elim (Bool-cases w.token_saved) [
      | inr q ↦ impossible (no_roles (save_token_fails s gid account token w p q) h)
      | inl q ↦ rw (save_token_lem s gid account token w p q) at h
    ]
  ]

  module _ (s : Stores) (device : DeviceInfo) (account : AccountData) (w : LoginAnswers)
      (role : Role) (roles : List Role) where
    issue_first_lem :
        (first : Role) (rest : List Role) (token : Bytes)
        → encode first.gid device.device_id ≡ some token
        → issue_first encode device w s account (first ∷ rest) ≡ saving s first.gid account token w
    unfolding issue_first
    issue_first_lem first rest token f = rw (f, issue_first) refl

    issue_first_fails :
        (first : Role) (rest : List Role)
        → encode first.gid device.device_id ≡ none
        → (issue_first encode device w s account (first ∷ rest)).1.roles ≡ []
    unfolding issue_first
    issue_first_fails first rest f = rw (f, issue_first) refl

    issue_first-IsVerified :
        (rs : List Role)
        → account.roles ≡ rs
        → (issue_first encode device w s account rs).1.roles ≡ role ∷ roles
        → IsVerified device.device_id (issue_first encode device w s account rs) role
    unfolding issue_first
    issue_first-IsVerified [] e h = impossible (no_roles refl h)
    issue_first-IsVerified (first ∷ rest) e h =
        elim (Option-cases (encode first.gid device.device_id)) [
          | inl f ↦ impossible (no_roles (issue_first_fails first rest f) h)
          | inr (token, f) ↦
              let lem = issue_first_lem first rest token f in
              let h' : (saving s first.gid account token w).1.roles ≡ role ∷ roles = rw (← lem) h in
              let same : first ≡ role =
                same_head (sym e ∙ saved_roles s first.gid account token w role roles h') in
              rw lem (
                subst (IsVerified device.device_id (saving s first.gid account token w)) same (
                  save_token-IsVerified s device.device_id account token w first roles f
                    (h' ∙ ap (λ r. r ∷ roles) (sym same))))
        ]

  issue_token-IsVerified :
      (device : DeviceInfo) (w : LoginAnswers) (loaded : Stores × Result AccountData Status)
      (role : Role) (roles : List Role)
      → (issue_token encode device w loaded).1.roles ≡ role ∷ roles
      → IsVerified device.device_id (issue_token encode device w loaded) role
  unfolding issue_token
  issue_token-IsVerified device w (s, err status) role roles h = impossible (no_roles refl h)
  issue_token-IsVerified device w (s, ok account) role roles h =
      issue_first-IsVerified s device account w role roles account.roles refl h

  module _ (digest : Bytes → Bytes) where
    login-cases :
        (s : Stores) (account credential : Bytes) (device : DeviceInfo) (w : LoginAnswers)
        → let request : AuthLoginReq = record {
          account = account;
          credential = credential;
          device = some device;
        } in
          ((login digest encode s request w).1.roles ≡ [])
          ⊎ (login digest encode s request w
              ≡ issue_token encode device w (load_or_create_account digest s account credential w))
    unfolding login limited
    login-cases s account credential device w = ground arith

    -- Where the token coder decodes what it encoded: if the login of an account reports a role, then the
    -- Gate that is given its token, by a client with the same device, verifies it against the online
    -- state that the login left, which is one of this account; and the login reports success.
    pub login-verify_online :
        (s : Stores) (account credential : Bytes) (device : DeviceInfo) (w : LoginAnswers)
        (role : Role) (roles : List Role)
        → let request : AuthLoginReq = record {
          account = account;
          credential = credential;
          device = some device;
        } in
          (login digest encode s request w).1.roles ≡ role ∷ roles
          → IsVerified device.device_id (login digest encode s request w) role
    login-verify_online s account credential device w role roles h =
        elim (login-cases s account credential device w) [
          | inl e ↦ impossible (no_roles e h)
          | inr e ↦ rw e (
              issue_token-IsVerified device w (load_or_create_account digest s account credential w)
                role roles (rw (← e) h))
        ]
