-- ===== src/Public/Mail/Retention.antt =====
-- How many mails a player keeps.
use xkk.Common.{
  ◌-◌, ◌≤◌, ◌≡◌, refl, inl, inr, suc, List, [], ◌∷◌, ◌++◌, arith, length, length-drop, Bool-cases,
}
use xkk.Common.Int.{ℤ, leb_ℤ}
use xkk.Public.Mail.{
  Mail, insert_mail, sort_mails, retain, stamped, store_mail, max_mails_per_player,
}

length-insert_mail : (m : Mail) (xs : List Mail) → length (insert_mail m xs) ≡ suc (length xs)
unfolding insert_mail
length-insert_mail m [] = refl
length-insert_mail m (x ∷ xs) = ground (arith, length-insert_mail m xs)

pub length-sort_mails : (xs : List Mail) → length (sort_mails xs) ≡ length xs
unfolding sort_mails
length-sort_mails [] = refl
length-sort_mails (m ∷ xs) =
    omega (arith, length-insert_mail m (sort_mails xs), length-sort_mails xs)

length-retain-le : (xs : List Mail) → length (retain xs) ≤ max_mails_per_player
unfolding retain
length-retain-le xs =
    omega (arith, length-drop (length (sort_mails xs) - max_mails_per_player) (sort_mails xs))

-- A player who keeps at most 200 mails keeps at most 200 after any mail that is sent, also where the
-- mail is refused.
pub length-store_mail-le :
    (now mail_id : ℤ) (m : Mail) (mails : List Mail)
    → length mails ≤ max_mails_per_player
    → length (store_mail now mail_id m mails).1 ≤ max_mails_per_player
unfolding store_mail
length-store_mail-le now mail_id m mails h =
    elim (Bool-cases (leb_ℤ (stamped now mail_id m).end_time now)) [
      | inl e ↦ rw e h
      | inr e ↦ rw e (length-retain-le (mails ++ (stamped now mail_id m ∷ [])))
    ]
