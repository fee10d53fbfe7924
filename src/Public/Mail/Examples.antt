-- ===== src/Public/Mail/Examples.antt =====
-- Concrete mails, and what becomes of them.
use xkk.Common.{
  ◌≡◌, ◌≤◌, refl, not, map, filter, true, false, none, some, List, [], ◌∷◌, arith, length,
  if◌then◌else◌, ok, err,
}
use xkk.Common.Int.{ℤ, pos, eqb_ℤ}
use xkk.Protocol.Status.{Status}
use xkk.Logic.Player.{Item}
use xkk.Common.Ids.{contains}
use xkk.Public.Mail.{
  Mail, find_mail, unclaimable, collect, mark_claimed, claim_mails, mail_claimed, store_mail,
  max_mails_per_player, read_mails, delete_mails,
}
use xkk.Public.Mail.Claims.{claim_mails_takes}
use xkk.Public.Mail.Spent.{Change, read, deleted, sent, after, no_mail_is_claimed_twice}
use xkk.Public.Mail.Retention.{length-store_mail-le}
use xkk.Public.Mail.Marks.{read_mails_again, delete_mails_lem}

abbrev gift : Item
gift = record { item_id = pos 7; count = pos 2; change = pos 0 }

abbrev mail : ℤ → List Item → Mail
mail id attachments = record {
  mail_id = id;
  title = 104 ∷ [];
  content = [];
  send_time = pos 10;
  end_time = pos 90;
  state = pos 0;
  attachments = attachments;
}

abbrev box : List Mail
box = mail (pos 1) (gift ∷ []) ∷ mail (pos 2) [] ∷ []

claims_both : (claim_mails (pos 50) (pos 1 ∷ pos 2 ∷ []) box).0.0 ≡ ok (gift ∷ [])
unfolding claim_mails collect find_mail unclaimable mark_claimed contains eqb_ℤ
claims_both = refl

contains_one : contains (pos 1) (pos 1 ∷ pos 2 ∷ []) ≡ true
unfolding contains eqb_ℤ
contains_one = refl

contains_again : contains (pos 1) (pos 1 ∷ []) ≡ true
unfolding contains eqb_ℤ
contains_again = refl

claim_mails_takes_example :
    (contains (pos 1) (pos 1 ∷ pos 2 ∷ []) ≡ true
      → (m : Mail) × (find_mail (pos 1) box ≡ some m)
        × (unclaimable (pos 50) m ≡ false)
        × (find_mail (pos 1) (claim_mails (pos 50) (pos 1 ∷ pos 2 ∷ []) box).1
            ≡ some (record m { state = mail_claimed })))
    × (contains (pos 1) (pos 1 ∷ pos 2 ∷ []) ≡ false
        → find_mail (pos 1) (claim_mails (pos 50) (pos 1 ∷ pos 2 ∷ []) box).1
          ≡ find_mail (pos 1) box)
claim_mails_takes_example =
    claim_mails_takes (pos 50) (pos 1 ∷ pos 2 ∷ []) box (gift ∷ []) (pos 1) claims_both

-- Between the claims the mail is read, another one is sent, and a third is deleted.
abbrev changes : List Change
changes = read (pos 1 ∷ []) ∷ sent (pos 55) (pos 3) (mail (pos 0) []) ∷ deleted (pos 2 ∷ []) ∷ []

no_mail_is_claimed_twice_example :
    let left = after (claim_mails (pos 50) (pos 1 ∷ pos 2 ∷ []) box).1 changes in
    (status : Status) × (claim_mails (pos 60) (pos 1 ∷ []) left ≡ ((err status, false), left))
no_mail_is_claimed_twice_example =
    no_mail_is_claimed_twice (pos 50) (pos 60) (pos 1 ∷ pos 2 ∷ []) (pos 1 ∷ []) box (gift ∷ [])
      (pos 1) changes claims_both contains_one ((λ e. cc), tt) contains_again

length-store_mail-le_example :
    length (store_mail (pos 50) (pos 3) (mail (pos 0) []) box).1 ≤ max_mails_per_player
length-store_mail-le_example =
    length-store_mail-le (pos 50) (pos 3) (mail (pos 0) []) box (omega arith)

read_mails_again_example :
    read_mails (pos 2 ∷ []) (read_mails (pos 2 ∷ []) box).0 ≡ ((read_mails (pos 2 ∷ []) box).0, [])
read_mails_again_example = read_mails_again (pos 2 ∷ []) box

delete_mails_lem_example :
    ((delete_mails (pos 2 ∷ []) box).0 ≡ filter (λ m. not (contains m.mail_id (pos 2 ∷ []))) box)
    × ((delete_mails (pos 2 ∷ []) box).1
        ≡ map (λ m. m.mail_id) (filter (λ m. contains m.mail_id (pos 2 ∷ [])) box))
    × ((id : ℤ)
        → find_mail id (delete_mails (pos 2 ∷ []) box).0
          ≡ (if contains id (pos 2 ∷ []) then none else find_mail id box))
delete_mails_lem_example = delete_mails_lem (pos 2 ∷ []) box
