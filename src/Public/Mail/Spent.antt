-- ===== src/Public/Mail/Spent.antt =====
-- The box of a player over its requests and the mails it is sent, and the mails in it that were claimed.
use xkk.Common.{
  ◌≡◌, ◌≢◌, refl, inl, inr, true, false, not, ◌||◌, some, List, [], ◌∷◌, ◌++◌, arith, drop, ℕ, zero,
  suc, ◌-◌, length, All, All-append, Bool-cases, Result-cases, ok, err,
}
use xkk.Common.Int.{ℤ, eqb_ℤ, eqb_ℤ_iff, leb_ℤ}
use xkk.Protocol.Status.{Status}
use xkk.Logic.Player.{Item}
use xkk.Common.Ids.{contains}
use xkk.Public.Mail.{
  Mail, find_mail, unclaimable, collect, mark_claimed, claim_mails, mail_claimed, unread,
  read_mails, delete_mails, insert_mail, sort_mails, stamped, retain, store_mail,
  max_mails_per_player,
}
use xkk.Public.Mail.Claims.{collect_refuses, claim_ok}

-- What changes the box of a player.
pub data Change : Type 0 where
  read : List ℤ → Change
  deleted : List ℤ → Change
  claimed : ℤ → List ℤ → Change
  sent : ℤ → ℤ → Mail → Change

unfoldable pub after : List Mail → List Change → List Mail
after mails [] = mails
after mails (read ids ∷ changes) = after (read_mails ids mails).0 changes
after mails (deleted ids ∷ changes) = after (delete_mails ids mails).0 changes
after mails (claimed now ids ∷ changes) = after (claim_mails now ids mails).1 changes
after mails (sent now mail_id m ∷ changes) = after (store_mail now mail_id m mails).1 changes

module _ (id : ℤ) where
  -- No mail that is sent gets the id.
  abbrev pub New : List Change → Type 0
  New [] = Unit {0}
  New (sent now mail_id m ∷ changes) = (mail_id ≢ id) × New changes
  New (_ ∷ changes) = New changes

  abbrev Spent : Mail → Type 0
  Spent m = (not (eqb_ℤ m.mail_id id) || leb_ℤ mail_claimed m.state) ≡ true

  read-Spent :
      (ids : List ℤ) (mails : List Mail) → All Spent mails → All Spent (read_mails ids mails).0
  unfolding read_mails unread
  read-Spent ids [] h = tt
  read-Spent ids (m ∷ ms) (h, hs) = elim (Bool-cases (unread ids m)) [
    | inl e ↦ rw e (ground arith, read-Spent ids ms hs)
    | inr e ↦ rw e (h, read-Spent ids ms hs)
  ]

  delete-Spent :
      (ids : List ℤ) (mails : List Mail) → All Spent mails → All Spent (delete_mails ids mails).0
  unfolding delete_mails
  delete-Spent ids [] h = tt
  delete-Spent ids (m ∷ ms) (h, hs) = elim (Bool-cases (contains m.mail_id ids)) [
    | inl e ↦ rw e (delete-Spent ids ms hs)
    | inr e ↦ rw e (h, delete-Spent ids ms hs)
  ]

  mark-Spent :
      (ids : List ℤ) (mails : List Mail) → All Spent mails → All Spent (mark_claimed ids mails)
  unfolding mark_claimed
  mark-Spent ids [] h = tt
  mark-Spent ids (m ∷ ms) (h, hs) = elim (Bool-cases (contains m.mail_id ids)) [
    | inl e ↦ rw e (ground arith, mark-Spent ids ms hs)
    | inr e ↦ rw e (h, mark-Spent ids ms hs)
  ]

  marked-Spent :
      (ids : List ℤ) (mails : List Mail)
      → contains id ids ≡ true
      → All Spent (mark_claimed ids mails)
  unfolding mark_claimed
  marked-Spent ids [] k = tt
  marked-Spent ids (m ∷ ms) k = elim (Bool-cases (contains m.mail_id ids)) [
    | inl e ↦ rw e (ground arith, marked-Spent ids ms k)
    | inr e ↦ rw e (elim (Bool-cases (eqb_ℤ m.mail_id id)) [
      | inl same ↦ absurd (let s = (eqb_ℤ_iff m.mail_id id).0 same in let k' = rw s at e in cc)
      | inr other ↦ (ground arith, marked-Spent ids ms k)
    ])
  ]

  insert-Spent :
      (m : Mail) (mails : List Mail) → Spent m → All Spent mails → All Spent (insert_mail m mails)
  unfolding insert_mail
  insert-Spent m [] h hs = (h, tt)
  insert-Spent m (x ∷ xs) h (hx, hs) = elim (Bool-cases (leb_ℤ m.mail_id x.mail_id)) [
    | inl e ↦ rw e (h, (hx, hs))
    | inr e ↦ rw e (hx, insert-Spent m xs h hs)
  ]

  sort-Spent : (mails : List Mail) → All Spent mails → All Spent (sort_mails mails)
  unfolding sort_mails
  sort-Spent [] h = tt
  sort-Spent (m ∷ ms) (h, hs) = insert-Spent m (sort_mails ms) h (sort-Spent ms hs)

  drop-Spent : (n : ℕ) (mails : List Mail) → All Spent mails → All Spent (drop n mails)
  drop-Spent zero mails h = h
  drop-Spent (suc n) [] h = tt
  drop-Spent (suc n) (m ∷ ms) h = drop-Spent n ms h.1

  store-Spent :
      (now mail_id : ℤ) (m : Mail) (mails : List Mail)
      → mail_id ≢ id
      → All Spent mails
      → All Spent (store_mail now mail_id m mails).1
  unfolding store_mail retain stamped
  store-Spent now mail_id m mails n h =
      elim (Bool-cases (leb_ℤ (stamped now mail_id m).end_time now)) [
        | inl e ↦ rw e h
        | inr e ↦
            let more = mails ++ (stamped now mail_id m ∷ []) in
            let sent : Spent (stamped now mail_id m) = ground (arith, eqb_ℤ_iff mail_id id) in
            rw e (
              drop-Spent (length (sort_mails more) - max_mails_per_player) (sort_mails more) (
                sort-Spent more (All-append Spent mails (stamped now mail_id m ∷ []) h (sent, tt))))
      ]

  claim-Spent :
      (now : ℤ) (ids : List ℤ) (mails : List Mail)
      → All Spent mails
      → All Spent (claim_mails now ids mails).1
  unfolding claim_mails
  claim-Spent now ids mails h = elim (Result-cases (collect now mails ids)) [
    | inl (items, e) ↦ rw (e, claim_mails) (mark-Spent ids mails h)
    | inr (status, e) ↦ rw (e, claim_mails) h
  ]

  after-Spent :
      (mails : List Mail) (changes : List Change)
      → New changes
      → All Spent mails
      → All Spent (after mails changes)
  unfolding after
  after-Spent mails [] n h = h
  after-Spent mails (read ids ∷ changes) n h =
      after-Spent (read_mails ids mails).0 changes n (read-Spent ids mails h)
  after-Spent mails (deleted ids ∷ changes) n h =
      after-Spent (delete_mails ids mails).0 changes n (delete-Spent ids mails h)
  after-Spent mails (claimed now ids ∷ changes) n h =
      after-Spent (claim_mails now ids mails).1 changes n (claim-Spent now ids mails h)
  after-Spent mails (sent now mail_id m ∷ changes) n h =
      after-Spent (store_mail now mail_id m mails).1 changes n.1
        (store-Spent now mail_id m mails n.0 h)

  find_mail-unclaimable :
      (now : ℤ) (mails : List Mail)
      → All Spent mails
      → (m : Mail) → find_mail id mails ≡ some m
      → unclaimable now m ≡ true
  unfolding find_mail unclaimable
  find_mail-unclaimable now [] h m e = absurd (cc)
  find_mail-unclaimable now (x ∷ xs) (h, hs) m e = elim (Bool-cases (eqb_ℤ x.mail_id id)) [
    | inl same ↦ ground (arith, h, same, e)
    | inr other ↦ find_mail-unclaimable now xs hs m (ground (arith, other, e))
  ]

-- No mail is claimed twice: once a claim that names a mail has succeeded, every later claim that names
-- it too is refused and changes nothing, whatever else it names and however many reads, deletes, other
-- claims and mails that are sent come between, where no mail that is sent gets the same id.
pub no_mail_is_claimed_twice :
    (now later : ℤ) (ids again : List ℤ) (mails : List Mail) (items : List Item) (id : ℤ)
    (changes : List Change)
    → (claim_mails now ids mails).0.0 ≡ ok items
    → contains id ids ≡ true
    → New id changes
    → contains id again ≡ true
    → let left = after (claim_mails now ids mails).1 changes in
      (status : Status) × (claim_mails later again left ≡ ((err status, false), left))
unfolding claim_mails
no_mail_is_claimed_twice now later ids again mails items id changes h k n k' =
    let left = after (claim_mails now ids mails).1 changes in
    let (found, marked) = claim_ok now ids mails items h in
    let spent =
      after-Spent id (claim_mails now ids mails).1 changes n
        (rw marked (marked-Spent id ids mails k)) in
    let (status, refused) =
      collect_refuses later left again id k' (find_mail-unclaimable id later left spent) in
    (status, rw (refused, claim_mails) refl)
