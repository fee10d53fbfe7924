-- ===== src/Public/Mail/Marks.antt =====
-- Reading and deleting mails, done once and again.
use xkk.Common.{
  ◌≡◌, refl, ap, map, inl, inr, false, List, [], ◌∷◌, arith, filter, not, if◌then◌else◌, Bool-cases,
  none,
}
use xkk.Common.Int.{ℤ, eqb_ℤ_iff}
use xkk.Common.Ids.{contains}
use xkk.Public.Mail.{Mail, unread, read_mails, delete_mails, find_mail, mail_read}

read_once : (ids : List ℤ) (m : Mail) → unread ids (record m { state = mail_read }) ≡ false
unfolding unread
read_once ids m = ground arith

-- What was read once is not read again: a second read of the same ids reports no mail and changes
-- none.
pub read_mails_again :
    (ids : List ℤ) (mails : List Mail)
    → read_mails ids (read_mails ids mails).0 ≡ ((read_mails ids mails).0, [])
unfolding read_mails
read_mails_again ids [] = refl
read_mails_again ids (m ∷ ms) = elim (Bool-cases (unread ids m)) [
  | inl e ↦ rw (e, read_once ids m, read_mails_again ids ms) refl
  | inr e ↦ rw (e, e, read_mails_again ids ms) refl
]

-- After a delete none of the ids is found, every mail of another id is as it was and in its place,
-- and the ids that are reported are those of the mails that went.
pub delete_mails_lem :
    (ids : List ℤ) (mails : List Mail)
    → ((delete_mails ids mails).0 ≡ filter (λ m. not (contains m.mail_id ids)) mails)
      × ((delete_mails ids mails).1
          ≡ map (λ m. m.mail_id) (filter (λ m. contains m.mail_id ids) mails))
      × ((id : ℤ)
          → find_mail id (delete_mails ids mails).0
            ≡ (if contains id ids then none else find_mail id mails))
unfolding delete_mails find_mail
delete_mails_lem ids [] = (refl, refl, λ id. ground arith)
delete_mails_lem ids (m ∷ ms) =
    let (kept, removed, found) = delete_mails_lem ids ms in
    elim (Bool-cases (contains m.mail_id ids)) [
      | inl e ↦ rw e (
        kept,
        ap (λ l. m.mail_id ∷ l) removed,
        λ id. ground (arith, eqb_ℤ_iff m.mail_id id, found id),
      )
      | inr e ↦
          rw e
            (ap (λ l. m ∷ l) kept, removed, λ id. ground (arith, eqb_ℤ_iff m.mail_id id, found id))
    ]
