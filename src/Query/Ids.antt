-- ===== src/Query/Ids.antt =====
-- Which requests of Query are answered.
mod Examples
use xkk.Common.{
  ℕ, ◌<◌, ◌≤◌, ◌≡◌, ◌↔◌, sym, ap, ◌∙◌, refl, inl, inr, true, false, Option, none, some, List, [],
  ◌∷◌, arith, length, is_empty, is_some, leb, ltb, if◌then◌else◌, All, Bool-cases, Option-cases,
}
use xkk.Common.Int.{ℤ, pos, ◌<ℤ◌}
use xkk.Common.Ids.{distinct_positive, distinct_positive_iff, NoRepeat}
use xkk.Protocol.Status.{ok_status}
use xkk.Logic.Player.{PlayerInfo}
use xkk.Query.{GamerInfoRsp, valid_gamer_ids, gamer_info, max_gamer_ids, max_inflight_requests}

-- Between 1 and 100 positive ids, none of them twice.
abbrev pub IsBatch : List ℤ → Type 0
IsBatch ids =
    (0 < length ids) × (length ids ≤ max_gamer_ids) × All (λ id. pos 0 <ℤ id) ids × NoRepeat ids

valid_gamer_ids-IsBatch : (ids : List ℤ) → IsBatch ids → valid_gamer_ids ids ≡ some ids
unfolding valid_gamer_ids
valid_gamer_ids-IsBatch [] h = absurd (omega (arith, h.0))
valid_gamer_ids-IsBatch (id ∷ ids) h =
    let distinct = (distinct_positive_iff (id ∷ ids)).1 (h.2, h.3) in
    let few : ltb max_gamer_ids (length (id ∷ ids)) ≡ false = ground (arith, h.1) in
    rw (few, distinct) refl

IsBatch-of : (ids other : List ℤ) → valid_gamer_ids ids ≡ some other → IsBatch ids × (other ≡ ids)
unfolding valid_gamer_ids
IsBatch-of [] other h = absurd (cc)
IsBatch-of (id ∷ ids) other h = elim (Bool-cases (ltb max_gamer_ids (length (id ∷ ids)))) [
  | inl e ↦ absurd (let h' = rw e at h in cc)
  | inr e ↦ elim (Bool-cases (distinct_positive [] (id ∷ ids))) [
    | inl f ↦
        let same = rw (e, f) at h in
        let (positive, differ) = (distinct_positive_iff (id ∷ ids)).0 f in
        ((omega arith, ground arith, positive, differ), cc)
    | inr f ↦ absurd (let h' = rw (e, f) at h in cc)
  ]
]

-- A request is answered with profiles exactly when fewer than 1024 requests are in flight, it names
-- between 1 and 100 positive ids, none of them twice, and the store loads these; the profiles are
-- then those of the store, for the ids as they were named.
pub gamer_info_iff :
    (inflight : ℕ) (ids : List ℤ) (load : List ℤ → Option (List PlayerInfo))
    (players : List PlayerInfo)
    → (gamer_info inflight ids load ≡ record { status = ok_status; players = players })
      ↔ ((inflight < max_inflight_requests) × IsBatch ids × (load ids ≡ some players))
unfolding gamer_info
gamer_info_iff inflight ids load players = (
  (λ h. elim (Bool-cases (leb max_inflight_requests inflight)) [
    | inl e ↦ absurd (let h' = rw e at h in cc)
    | inr e ↦ elim (Option-cases (valid_gamer_ids ids)) [
      | inl f ↦ absurd (let h' = rw (e, f, gamer_info) at h in cc)
      | inr (other, f) ↦
          let (batch, same) = IsBatch-of ids other f in
          elim (Option-cases (load other)) [
            | inl g ↦ absurd (let h' = rw (e, f, gamer_info, g) at h in cc)
            | inr (found, g) ↦
                let h' = rw (e, f, gamer_info, g) at h in
                (ground arith, batch, sym (ap load same) ∙ g ∙ ap (λ rsp. some rsp.players) h')
          ]
    ]
  ]),
  (λ h.
      let room : leb max_inflight_requests inflight ≡ false = ground (arith, h.0) in
      rw (room, valid_gamer_ids-IsBatch ids h.1, gamer_info) (rw (h.2, gamer_info) refl)),
)
