-- ===== src/Cache/ServiceOnline/Laws.antt =====
-- What a publication and a deletion are to the loads that follow.
use xkk.Common.{
  ◌≡◌, refl, inl, inr, Bool-cases, Option-cases, ℕ, true, false, ◌*◌, ◌+◌, ◌/◌, Option, none, some,
  List, [], ◌∷◌, arith, if◌then◌else◌, ltb,
}
use xkk.Common.Int.{ℤ, eqb_ℤ, eqb_ℤ_iff}
use xkk.Common.Keys.{get, insert, get-insert, int_key}
use xkk.Cache.ServiceOnline.{
  ServiceOnlineCount, Hash, live, publish_service_online, load_service_online_counts,
}

published :
    (h h' : Hash) (now ttl : ℕ) (id count : ℤ)
    → publish_service_online h now id count ttl ≡ some h'
    → (h'.fields ≡ insert id count (live now h))
      × (h'.expires_at ≡ now + ttl / 1_000_000_000 * 1_000)
unfolding publish_service_online
published h h' now ttl id count e = ground (arith, e)

live-none :
    (id : ℤ) (now : ℕ) (h : Hash) → ltb now h.expires_at ≡ false → get id (live now h) ≡ none
unfolding live get
live-none id now h e = rw e refl

live-some : (id : ℤ) (now : ℕ) (h : Hash) → ltb now h.expires_at ≡ true → live now h ≡ h.fields
unfolding live
live-some id now h e = rw e refl

abbrev found : ℤ → Option ℤ → List ServiceOnlineCount
found id none = []
found id (some count) = record { instance_id = id; online_count = count } ∷ []

load_one :
    (h : Hash) (now : ℕ) (id : ℤ)
    → load_service_online_counts h now (id ∷ []) ≡ found id (get id (live now h))
unfolding load_service_online_counts
load_one h now id = elim (Option-cases (get id (live now h))) [
  | inl e ↦ rw (e, load_service_online_counts) refl
  | inr (count, e) ↦ rw (e, load_service_online_counts) refl
]

-- After a publication, as long as the life time of the hash lasts, which then begins anew, a load finds the
-- published count of the instance and of every other instance what a load found at the publication; after
-- that it finds nothing.
pub publish_is_loaded :
    (h h' : Hash) (now later ttl : ℕ) (id other : ℤ) (count : ℤ)
    → publish_service_online h now id count ttl ≡ some h'
    → load_service_online_counts h' later (other ∷ []) ≡ (
        if ltb later (now + ttl / 1_000_000_000 * 1_000)
        then (if eqb_ℤ id other
            then record { instance_id = id; online_count = count } ∷ []
            else load_service_online_counts h now (other ∷ []))
        else [])
publish_is_loaded h h' now later ttl id other count e =
    let (fields, expires) = published h h' now ttl id count e in
    rw (load_one h' later other, load_one h now other, ← expires)
      (elim (Bool-cases (ltb later h'.expires_at)) [
        | inl alive ↦
            rw
              (
                alive,
                live-some other later h' alive,
                fields,
                get-insert id other count (live now h),
              )
              (elim (Bool-cases (eqb_ℤ id other)) [
                | inl same ↦ rw (same, (eqb_ℤ_iff id other).0 same) refl
                | inr differ ↦ rw differ refl
              ])
        | inr gone ↦ rw (gone, live-none other later h' gone) refl
      ])
