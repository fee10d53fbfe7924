-- ===== src/Public/Mail/Claims.antt =====
-- Claiming mails: all of a request or none of it.
use xkk.Common.{
  ◌≡◌, refl, sym, ◌∙◌, inl, inr, true, false, Option, none, some, List, [], ◌∷◌, arith,
  if◌then◌else◌, Bool-cases, Option-cases, ok, err, Result-cases,
}
use xkk.Common.Int.{ℤ, eqb_ℤ, eqb_ℤ_iff}
use xkk.Protocol.Status.{Status, error_status}
use xkk.Protocol.Code
use xkk.Logic.Player.{Item}
use xkk.Common.Ids.{contains}
use xkk.Public.Mail.{Mail, find_mail, unclaimable, collect, mark_claimed, claim_mails, mail_claimed}

mark : List ℤ → Option Mail → ℤ → Option Mail
mark ids none id = none
mark ids (some m) id = some (if contains id ids then record m { state = mail_claimed } else m)

find-mark_claimed :
    (ids : List ℤ) (id : ℤ) (mails : List Mail)
    → find_mail id (mark_claimed ids mails) ≡ mark ids (find_mail id mails) id
unfolding find_mail mark_claimed mark
find-mark_claimed ids id [] = refl
find-mark_claimed ids id (m ∷ ms) = elim (Bool-cases (eqb_ℤ m.mail_id id)) [
  | inl e ↦
      let same = (eqb_ℤ_iff m.mail_id id).0 e in
      elim (Bool-cases (contains m.mail_id ids)) [
        | inl f ↦ rw (f, e) (rw (← same, f) refl)
        | inr f ↦ rw (f, e) (rw (← same, f) refl)
      ]
  | inr e ↦ elim (Bool-cases (contains m.mail_id ids)) [
    | inl f ↦ rw (f, e) (find-mark_claimed ids id ms)
    | inr f ↦ rw (f, e) (find-mark_claimed ids id ms)
  ]
]

-- One mail that is missing or cannot be claimed refuses the whole request.
pub collect_refuses :
    (now : ℤ) (mails : List Mail) (ids : List ℤ) (id : ℤ)
    → contains id ids ≡ true
    → ((m : Mail) → find_mail id mails ≡ some m → unclaimable now m ≡ true)
    → (status : Status) × (collect now mails ids ≡ err status)
unfolding collect contains
collect_refuses now mails [] id h bad = absurd (cc)
collect_refuses now mails (j ∷ ids) id h bad = elim (Option-cases (find_mail j mails)) [
  | inl e ↦ (error_status Code.not_found "mail not found", rw (e, collect) refl)
  | inr (m, e) ↦ elim (Bool-cases (unclaimable now m)) [
    | inl f ↦ (error_status Code.conflict "mail cannot be claimed", rw (e, collect) (rw f refl))
    | inr f ↦ elim (Bool-cases (eqb_ℤ id j)) [
      | inl g ↦ let same = (eqb_ℤ_iff id j).0 g in let impossible = bad m (rw same e) in absurd (cc)
      | inr g ↦
          let (status, rest) = collect_refuses now mails ids id (ground arith) bad in
          (status, rw (e, collect) (rw (f, rest) refl))
    ]
  ]
]

collect_found :
    (now : ℤ) (mails : List Mail) (ids : List ℤ) (items : List Item) (id : ℤ)
    → collect now mails ids ≡ ok items
    → contains id ids ≡ true
    → (m : Mail) × (find_mail id mails ≡ some m) × (unclaimable now m ≡ false)
collect_found now mails ids items id h k = elim (Option-cases (find_mail id mails)) [
  | inl e ↦
      let (status, refused) =
        collect_refuses now mails ids id k (λ m f. absurd (let both = sym e ∙ f in cc)) in
      absurd (let both = sym h ∙ refused in cc)
  | inr (m, e) ↦ elim (Bool-cases (unclaimable now m)) [
    | inl f ↦
        let (status, refused) =
          collect_refuses now mails ids id k (λ n g. let both = sym e ∙ g in cc) in
        absurd (let both = sym h ∙ refused in cc)
    | inr f ↦ (m, e, f)
  ]
]

pub claim_ok :
    (now : ℤ) (ids : List ℤ) (mails : List Mail) (items : List Item)
    → (claim_mails now ids mails).0.0 ≡ ok items
    → (collect now mails ids ≡ ok items) × ((claim_mails now ids mails).1 ≡ mark_claimed ids mails)
unfolding claim_mails
claim_ok now ids mails items h = elim (Result-cases (collect now mails ids)) [
  | inl (collected, e) ↦ let same = rw (e, claim_mails) at h in (e ∙ same, rw (e, claim_mails) refl)
  | inr (status, e) ↦ absurd (let h' = rw (e, claim_mails) at h in cc)
]

-- A claim that succeeds found each of its mails, not expired and not yet claimed, and leaves each of
-- them claimed and every other mail as it was.
pub claim_mails_takes :
    (now : ℤ) (ids : List ℤ) (mails : List Mail) (items : List Item) (id : ℤ)
    → (claim_mails now ids mails).0.0 ≡ ok items
    → (contains id ids ≡ true
        → (m : Mail) × (find_mail id mails ≡ some m)
          × (unclaimable now m ≡ false)
          × (find_mail id (claim_mails now ids mails).1 ≡ some (record m { state = mail_claimed })))
      × (contains id ids ≡ false → find_mail id (claim_mails now ids mails).1 ≡ find_mail id mails)
unfolding mark
claim_mails_takes now ids mails items id h =
    let (collected, left) = claim_ok now ids mails items h in
    (
      (λ k.
          let (m, e, f) = collect_found now mails ids items id collected k in
          (m, e, f, rw (left, find-mark_claimed ids id mails, e) (rw k refl))),
      λ k.
          rw (left, find-mark_claimed ids id mails)
            (elim (Option-cases (find_mail id mails)) [
              | inl e ↦ rw (e, mark) refl
              | inr (m, e) ↦ rw (e, mark) (rw k refl)
            ]),
    )
