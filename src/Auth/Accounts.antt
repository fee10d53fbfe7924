-- ===== src/Auth/Accounts.antt =====
-- The login of an account: what it leaves for the next login.
use xkk.Common.{◌≡◌, refl, true, Option, none, some, arith, if◌then◌else◌, ok, err}
use xkk.Common.Keys.{get, get-insert, int_key, ◌==◌}
use xkk.Common.Bytes.{Bytes, bytes_key, eqb_bytes_iff}
use xkk.Protocol.Status.{error_status}
use xkk.Protocol.Code
use xkk.Auth.{
  AccountData, Stores, LoginAnswers, credential_hash, load_or_create_account_locked,
  load_or_create_account,
}

module _ (digest : Bytes → Bytes) where
  abbrev Stored : Stores → Bytes → Bytes → AccountData → Type 0
  Stored s account credential found =
      (get account s.accounts ≡ some found)
      × (found.credential_hash ≡ credential_hash digest account credential)

  locked-Stored :
      (s : Stores) (account credential : Bytes) (w : LoginAnswers) (found : AccountData)
      (old : Option AccountData)
      → get account s.accounts ≡ old
      → (load_or_create_account_locked digest s account credential w).1 ≡ ok found
      → Stored
          (load_or_create_account_locked digest s account credential w).0
          account
          credential
          found
  unfolding load_or_create_account_locked
  locked-Stored s account credential w found none e h =
      ground (arith, get-insert account account found s.accounts, eqb_bytes_iff account account)
  locked-Stored s account credential w found (some old) e h =
      ground (arith, eqb_bytes_iff old.credential_hash (credential_hash digest account credential))

  load_or_create_account-Stored :
      (s : Stores) (account credential : Bytes) (w : LoginAnswers) (found : AccountData)
      → (load_or_create_account digest s account credential w).1 ≡ ok found
      → Stored (load_or_create_account digest s account credential w).0 account credential found
  unfolding load_or_create_account
  load_or_create_account-Stored s account credential w found h =
      ground (arith, locked-Stored s account credential w found (get account s.accounts) refl)

  load_stored :
      (s : Stores) (account other : Bytes) (w : LoginAnswers) (found : AccountData) (hash : Bytes)
      → get account s.accounts ≡ some found
      → found.credential_hash ≡ hash
      → w.locked ≡ some true
      → w.loads ≡ true
      → load_or_create_account digest s account other w ≡ (
        s,
        if hash == credential_hash digest account other
            then ok found
            else err (error_status Code.unauthenticated "credential mismatch"),
      )
  unfolding load_or_create_account load_or_create_account_locked
  load_stored s account other w found hash e same locked loads = ground arith

  -- After a request that found or made an account, each later one that gets the lock and can load the
  -- account finds the same account if its credential has the same digest, and else is refused; it
  -- changes nothing.
  pub load_or_create_account_again :
      (s : Stores) (account credential other : Bytes) (w w' : LoginAnswers) (found : AccountData)
      → (load_or_create_account digest s account credential w).1 ≡ ok found
      → w'.locked ≡ some true
      → w'.loads ≡ true
      → let s' = (load_or_create_account digest s account credential w).0 in
        load_or_create_account digest s' account other w' ≡ (
          s',
          if credential_hash digest account credential == credential_hash digest account other
              then ok found
              else err (error_status Code.unauthenticated "credential mismatch"),
        )
  load_or_create_account_again s account credential other w w' found h locked loads =
      let (stored, same) = load_or_create_account-Stored s account credential w found h in
      load_stored (load_or_create_account digest s account credential w).0 account other w' found
        (credential_hash digest account credential) stored same locked loads
