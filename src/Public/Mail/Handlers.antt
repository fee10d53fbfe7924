-- ===== src/Public/Mail/Handlers.antt =====
-- The handlers of service/public/src/mail.rs around the operations on a player's mails, cut at their
-- calls of other services. The player is `none` where the cache failed.
use xkk.Common.{
  not, Option, none, some, List, [], ◌∷◌, is_empty, unwrap_or, if◌then◌else◌, Result, ok, err,
}
use xkk.Common.Int.{ℤ, pos, ltb_ℤ, leb_ℤ, eqb_ℤ}
use xkk.Cache.Online.{OnlineData, OnlineError}
use xkk.Protocol.Status.{Status, ok_status, error_status}
use xkk.Protocol.Code
use xkk.Logic.Player.{Item}
use xkk.Public.Mail.{
  Mail, PublicPlayer, update, valid_mail_ids, list_mails, read_mails, delete_mails, claim_mails,
  invalid_mail, store_mail,
}

-- The responses of `read` and `delete`, and of `claim`, `list` and `send_mail`.
pub record IdsRsp : Type 0 where
  pub status : Status
  pub mail_ids : List ℤ

pub record ClaimRsp : Type 0 where
  pub status : Status
  pub mail_ids : List ℤ
  pub items : List Item

pub record ListRsp : Type 0 where
  pub status : Status
  pub mails : List Mail

pub record SendRsp : Type 0 where
  pub status : Status
  pub mail_id : ℤ

cache_status : Status
cache_status = error_status Code.internal "Public player data unavailable"

ids_error : Status → IdsRsp
ids_error status = record { status = status; mail_ids = [] }

claim_error : Status → ClaimRsp
claim_error status = record { status = status; mail_ids = []; items = [] }

-- The three tests that `read` and `delete` begin with.
admit_ids : Option ℤ → Option (List ℤ) → Option PublicPlayer → Result (List ℤ × PublicPlayer) Status
unfolding cache_status
admit_ids none ids player = err (error_status Code.invalid_argument "missing player route")
admit_ids (some gid) none player = err (error_status Code.invalid_argument "invalid mail ids")
admit_ids (some gid) (some ids) none = err cache_status
admit_ids (some gid) (some ids) (some p) = ok (ids, p)

unfoldable pub list : Option ℤ → Option PublicPlayer → ℤ → ListRsp
unfolding cache_status
list none player now = record {
  status = error_status Code.invalid_argument "missing player route";
  mails = [];
}
list (some gid) none now = record { status = cache_status; mails = [] }
list (some gid) (some p) now = record { status = ok_status; mails = list_mails now p.mails }

-- The ids that an operation reports; it makes the player dirty where there is one.
change_ids : PublicPlayer → List Mail × List ℤ → PublicPlayer × IdsRsp
change_ids p (mails, ids) =
    let (p', reported) = update p (λ _. ((ids, not (is_empty ids)), mails)) in
    (p', record { status = ok_status; mail_ids = reported })

unfoldable pub read : Option ℤ → List ℤ → Option PublicPlayer → Option PublicPlayer × IdsRsp
unfolding admit_ids ids_error change_ids
read gid ids player = elim (admit_ids gid (valid_mail_ids ids) player) [
  | err status ↦ (player, ids_error status)
  | ok (requested, p) ↦
      let (p', rsp) = change_ids p (read_mails requested p.mails) in (some p', rsp)
]

unfoldable pub delete : Option ℤ → List ℤ → Option PublicPlayer → Option PublicPlayer × IdsRsp
unfolding admit_ids ids_error change_ids
delete gid ids player = elim (admit_ids gid (valid_mail_ids ids) player) [
  | err status ↦ (player, ids_error status)
  | ok (requested, p) ↦
      let (p', rsp) = change_ids p (delete_mails requested p.mails) in (some p', rsp)
]

-- What a claim answers at once, or the items that it has Logic add.
claim_result : List ℤ → Result (List Item) Status → Result (List Item) ClaimRsp
unfolding claim_error
claim_result ids (err status) = err (claim_error status)
claim_result ids (ok []) = err (record { status = ok_status; mail_ids = ids; items = [] })
claim_result ids (ok (item ∷ items)) = ok (item ∷ items)

-- Up to the load of the online state.
unfoldable pub claim :
    Option ℤ → List ℤ → Option PublicPlayer → ℤ → Option PublicPlayer × Result (List Item) ClaimRsp
unfolding admit_ids claim_error claim_result
claim gid ids player now = elim (admit_ids gid (valid_mail_ids ids) player) [
  | err status ↦ (player, err (claim_error status))
  | ok (requested, p) ↦
      let (p', result) = update p (claim_mails now requested) in
      (some p', claim_result requested result)
]

-- The Logic server that is asked to add the items.
unfoldable pub claim_owner : Result (Option OnlineData) OnlineError → Result ℤ ClaimRsp
unfolding claim_error
claim_owner (err _) = err (claim_error (error_status Code.internal "online state load failed"))
claim_owner (ok none) =
    err (claim_error (error_status Code.temporarily_unavailable "Logic ownership unavailable"))
claim_owner (ok (some online)) =
    if ltb_ℤ (pos 0) online.logic_id
    then ok online.logic_id
    else err (claim_error (error_status Code.temporarily_unavailable "Logic ownership unavailable"))

-- The response of Logic, a status that may be missing and the items; `none` for a call that failed.
unfoldable pub claim_reply : List ℤ → Option (Option Status × List Item) → ClaimRsp
unfolding claim_error
claim_reply ids none = claim_error (error_status Code.temporarily_unavailable "item grant failed")
claim_reply ids (some (reported, items)) =
    let status =
      unwrap_or reported (error_status Code.internal "Logic item response has no status") in
    if not (eqb_ℤ status.code Code.ok)
    then claim_error status
    else record { status = ok_status; mail_ids = ids; items = items }

send_result : Result Mail Status → SendRsp × Option Mail
send_result (err status) = (record { status = status; mail_id = pos 0 }, none)
send_result (ok m) = (record { status = ok_status; mail_id = m.mail_id }, some m)

-- The mail that is pushed to the player's gate is part of the result.
unfoldable pub send_mail :
    ℤ → Option Mail → Option PublicPlayer → ℤ → ℤ → Option PublicPlayer × SendRsp × Option Mail
unfolding cache_status send_result
send_mail gid none player now mail_id = (
  player,
  record { status = error_status Code.invalid_argument "mail is required"; mail_id = pos 0 },
  none,
)
send_mail gid (some m) player now mail_id =
    if invalid_mail gid m
    then (
      player,
      record {
        status = error_status Code.invalid_argument "invalid mail request";
        mail_id = pos 0;
      },
      none,
    )
    else elim player [
      | none ↦ (none, record { status = cache_status; mail_id = pos 0 }, none)
      | some p ↦
          let (p', result) = update p (store_mail now mail_id m) in
          let (rsp, pushed) = send_result result in (some p', rsp, pushed)
    ]

-- The gate that a new mail is pushed to.
unfoldable pub notified_gate : Result (Option OnlineData) OnlineError → Option ℤ
notified_gate (ok (some online)) =
    if leb_ℤ online.gate_id (pos 0)
    then none
    else if leb_ℤ online.session (pos 0)
    then none
    else some online.gate_id
notified_gate _ = none
