-- ===== src/Public/Mail.antt =====
-- service/public/src/mail.rs: the mails of one player, with the player's flag `dirty` of
-- persist/src/public_player.rs. An operation is the closure that the player cache runs under the
-- player's lock; `none` for a player is a cache that failed. Mail ids of one player differ, so that
-- sorting by id has one result. Sums of i64 wrap.
pub mod Claims
pub mod Spent
pub mod Marks
pub mod Retention
pub mod Handlers
mod Examples
use xkk.Common.{
  ℕ, ◌-◌, ◌^◌, Bool, true, false, not, ◌&&◌, ◌||◌, Option, none, some, List, [], ◌∷◌, ◌++◌, any,
  filter, length, drop, is_empty, leb, ltb, if◌then◌else◌, Result, ok, err,
}
use xkk.Common.Int.{ℤ, pos, ◌+ℤ◌, leb_ℤ, ltb_ℤ, eqb_ℤ, wrap_i64}
use xkk.Common.Bytes.{Bytes}
use xkk.Common.Ids.{contains, distinct_positive}
use xkk.Protocol.Status.{Status, ok_status, error_status}
use xkk.Protocol.Code
use xkk.Logic.Player.{Item}

pub record Mail : Type 0 where
  pub mail_id : ℤ
  pub title : Bytes
  pub content : Bytes
  pub send_time : ℤ
  pub end_time : ℤ
  pub state : ℤ
  pub attachments : List Item

pub record PublicPlayer : Type 0 where
  pub mails : List Mail
  pub dirty : Bool

abbrev pub mail_read : ℤ
mail_read = pos 1

abbrev pub mail_claimed : ℤ
mail_claimed = pos 2

abbrev pub max_mails_per_player : ℕ
max_mails_per_player = 200

abbrev pub max_request_mails : ℕ
max_request_mails = 100

abbrev pub default_mail_lifetime : ℤ
default_mail_lifetime = pos 2592000

-- `PublicPlayer::update`
abbrev pub update {ℓ} :
    {A : Type ℓ} → PublicPlayer → (List Mail → (A × Bool) × List Mail) → PublicPlayer × A
update p change =
    let ((result, changed), mails) = change p.mails in
    (record { mails = mails; dirty = changed || p.dirty }, result)

-- Of two u64, those that are a positive i64.
unfoldable pub player_gid : ℕ → ℕ → Option ℤ
player_gid gid session =
    if ltb 0 gid && ltb gid (2 ^ 63) && ltb 0 session && ltb session (2 ^ 63)
    then some (pos gid)
    else none

unfoldable pub valid_mail_ids : List ℤ → Option (List ℤ)
unfolding distinct_positive
valid_mail_ids ids =
    if is_empty ids || ltb max_request_mails (length ids)
    then none
    else if distinct_positive [] ids
    then some ids
    else none

unfoldable pub insert_mail : Mail → List Mail → List Mail
insert_mail m [] = m ∷ []
insert_mail m (x ∷ xs) =
    let rest = insert_mail m xs in if leb_ℤ m.mail_id x.mail_id then m ∷ x ∷ xs else x ∷ rest

unfoldable pub sort_mails : List Mail → List Mail
unfolding insert_mail
sort_mails [] = []
sort_mails (m ∷ ms) = insert_mail m (sort_mails ms)

unfoldable pub list_mails : ℤ → List Mail → List Mail
unfolding sort_mails
list_mails now mails =
    sort_mails (filter (λ m. eqb_ℤ m.end_time (pos 0) || ltb_ℤ now m.end_time) mails)

unread : List ℤ → Mail → Bool
unfolding contains
unread ids m = contains m.mail_id ids && ltb_ℤ m.state mail_read

-- The mails, and the ids of those that were read.
unfoldable pub read_mails : List ℤ → List Mail → List Mail × List ℤ
unfolding unread
read_mails ids [] = ([], [])
read_mails ids (m ∷ ms) =
    let (rest, changed) = read_mails ids ms in
    if unread ids m
    then (record m { state = mail_read } ∷ rest, m.mail_id ∷ changed)
    else (m ∷ rest, changed)

-- The mails that stay, and the ids of those that go.
unfoldable pub delete_mails : List ℤ → List Mail → List Mail × List ℤ
unfolding contains
delete_mails ids [] = ([], [])
delete_mails ids (m ∷ ms) =
    let (rest, removed) = delete_mails ids ms in
    if contains m.mail_id ids then (rest, m.mail_id ∷ removed) else (m ∷ rest, removed)

unfoldable pub find_mail : ℤ → List Mail → Option Mail
find_mail id [] = none
find_mail id (m ∷ ms) = if eqb_ℤ m.mail_id id then some m else find_mail id ms

unfoldable pub unclaimable : ℤ → Mail → Bool
unclaimable now m =
    (not (eqb_ℤ m.end_time (pos 0)) && leb_ℤ m.end_time now) || leb_ℤ mail_claimed m.state

-- The first loop of `claim_mails`.
unfoldable pub collect : ℤ → List Mail → List ℤ → Result (List Item) Status
unfolding find_mail unclaimable
collect now mails [] = ok []
collect now mails (id ∷ ids) =
    let rest = collect now mails ids in
    elim (find_mail id mails) [
      | none ↦ err (error_status Code.not_found "mail not found")
      | some m ↦
          if unclaimable now m
          then err (error_status Code.conflict "mail cannot be claimed")
          else elim rest [ ok items ↦ ok (m.attachments ++ items) | err status ↦ err status ]
    ]

-- The second loop.
unfoldable pub mark_claimed : List ℤ → List Mail → List Mail
unfolding contains
mark_claimed ids [] = []
mark_claimed ids (m ∷ ms) =
    (if contains m.mail_id ids then record m { state = mail_claimed } else m) ∷ mark_claimed ids ms

unfoldable pub claim_mails : ℤ → List ℤ → List Mail → (Result (List Item) Status × Bool) × List Mail
unfolding collect mark_claimed
claim_mails now ids mails = elim (collect now mails ids) [
  | err status ↦ ((err status, false), mails)
  | ok items ↦ ((ok items, true), mark_claimed ids mails)
]

unfoldable pub invalid_mail : ℤ → Mail → Bool
invalid_mail gid m =
    leb_ℤ gid (pos 0)
    || is_empty m.title
    || ltb 128 (length m.title)
    || ltb 4096 (length m.content)
    || any (λ (item : Item). leb_ℤ item.item_id (pos 0) || leb_ℤ item.count (pos 0)) m.attachments

-- The mail with its id and its times.
unfoldable pub stamped : ℤ → ℤ → Mail → Mail
stamped now mail_id m =
    let send_time = if eqb_ℤ m.send_time (pos 0) then now else m.send_time in
    record m {
      mail_id = mail_id;
      send_time = send_time;
      end_time =
          if eqb_ℤ m.end_time (pos 0)
          then wrap_i64 (send_time +ℤ default_mail_lifetime)
          else m.end_time;
      state = pos 0;
    }

-- The mails of the highest ids, at most as many as a player keeps.
unfoldable pub retain : List Mail → List Mail
unfolding sort_mails
retain mails = let sorted = sort_mails mails in drop (length sorted - max_mails_per_player) sorted

-- The closure of `send_mail`; `mail_id` is the new id.
unfoldable pub store_mail : ℤ → ℤ → Mail → List Mail → (Result Mail Status × Bool) × List Mail
unfolding stamped retain
store_mail now mail_id m mails =
    let message = stamped now mail_id m in
    if leb_ℤ message.end_time now
    then ((err (error_status Code.invalid_argument "mail is already expired"), false), mails)
    else ((ok message, true), retain (mails ++ (message ∷ [])))
