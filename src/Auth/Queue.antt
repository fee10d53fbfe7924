-- ===== src/Auth/Queue.antt =====
-- cache/src/login_queue.rs: the queue of the roles that wait for a Gate, a sorted set of Redis; the score
-- of a member is the time in milliseconds when it joined. The script is one step of Redis.
use xkk.Common.{
  ℕ, ◌+◌, ◌≤◌, ◌≡◌, refl, inl, inr, Bool, true, false, ◌&&◌, ◌||◌, none, some, [], ◌∷◌, arith,
  if◌then◌else◌, is_some, Bool-cases,
}
use xkk.Common.Int.{ℤ, ◌-ℤ◌, ltb_ℤ, leb_ℤ, eqb_ℤ, eqb_ℤ_iff}
use xkk.Common.Keys.{Map, get, insert, get-insert, int_key}

-- `ZREMRANGEBYSCORE` up to a score.
unfoldable pub remove_stale : ℤ → Map ℤ ℤ → Map ℤ ℤ
remove_stale limit [] = []
remove_stale limit ((gid, score) ∷ q) =
    let rest = remove_stale limit q in if leb_ℤ score limit then rest else (gid, score) ∷ rest

-- The order of the members of equal score is a parameter.
module _ (precedes : ℤ → ℤ → Bool) where
  abbrev pub before : ℤ → ℤ → ℤ → ℤ → Bool
  before gid score other at = ltb_ℤ at score || eqb_ℤ at score && precedes other gid

  -- `ZRANK` of a member with this score.
  unfoldable pub rank : ℤ → ℤ → Map ℤ ℤ → ℕ
  rank gid score [] = 0
  rank gid score ((other, at) ∷ q) =
      let rest = rank gid score q in if before gid score other at then 1 + rest else rest

  unfoldable pub position : ℤ → Map ℤ ℤ → ℕ
  position gid q = elim (get gid q) [ none ↦ 0 | some score ↦ rank gid score q + 1 ]

  -- `enqueue_login`; its assertions hold where it is called.
  unfoldable pub enqueue_login : Map ℤ ℤ → ℤ → ℤ → ℤ → Map ℤ ℤ × ℕ
  unfolding position
  enqueue_login q gid now ttl =
      let fresh = remove_stale (now -ℤ ttl) q in
      let added = if is_some (get gid fresh) then fresh else insert gid now fresh in
      (added, position gid added)

  rank-remove_stale :
      (gid score limit : ℤ) (q : Map ℤ ℤ) → rank gid score (remove_stale limit q) ≤ rank gid score q
  unfolding rank remove_stale
  rank-remove_stale gid score limit [] = omega arith
  rank-remove_stale gid score limit ((other, at) ∷ q) =
      ground (arith, rank-remove_stale gid score limit q)

  rank-insert :
      (gid score other at : ℤ) (q : Map ℤ ℤ)
      → is_some (get other q) ≡ false
      → before gid score other at ≡ false
      → rank gid score (insert other at q) ≡ rank gid score q
  unfolding rank get insert
  rank-insert gid score other at [] h b = rw b refl
  rank-insert gid score other at ((j, t) ∷ q) h b = ground (arith, rank-insert gid score other at q)

  get-remove_stale :
      (gid score limit : ℤ) (q : Map ℤ ℤ)
      → get gid q ≡ some score
      → leb_ℤ score limit ≡ false
      → get gid (remove_stale limit q) ≡ some score
  unfolding get remove_stale
  get-remove_stale gid score limit [] h k = h
  get-remove_stale gid score limit ((j, t) ∷ q) h k =
      ground (arith, get-remove_stale gid score limit q)

  position_lem :
      (gid score : ℤ) (q : Map ℤ ℤ) → get gid q ≡ some score → position gid q ≡ rank gid score q + 1
  unfolding position
  position_lem gid score q h = rw (h, position) refl

  not_before :
      (gid score other now : ℤ) → ltb_ℤ score now ≡ true → before gid score other now ≡ false
  not_before gid score other now later = ground (arith, eqb_ℤ_iff now score)

  -- A role that joins now does not move another one.
  join_behind :
      (q : Map ℤ ℤ) (gid score other now : ℤ)
      → get gid q ≡ some score
      → ltb_ℤ score now ≡ true
      → is_some (get other q) ≡ false
      → (get gid (insert other now q) ≡ some score)
        × (position gid (insert other now q) ≡ position gid q)
  join_behind q gid score other now h later new =
      let still : get gid (insert other now q) ≡ some score =
        ground (arith, get-insert other gid now q, eqb_ℤ_iff other gid) in
      (
        still,
        omega (
          arith,
          position_lem gid score q h,
          position_lem gid score (insert other now q) still,
          rank-insert gid score other now q new (not_before gid score other now later),
        ),
      )

  -- Nobody is overtaken: while the time of a role is not up, a request of any role at a later time leaves it
  -- in the queue, and never moves it back.
  pub enqueue_login_keeps_order :
      (q : Map ℤ ℤ) (gid score other now ttl : ℤ)
      → get gid q ≡ some score
      → leb_ℤ score (now -ℤ ttl) ≡ false
      → ltb_ℤ score now ≡ true
      → let q' = (enqueue_login q other now ttl).0 in
        (get gid q' ≡ some score) × (position gid q' ≤ position gid q)
  unfolding enqueue_login
  enqueue_login_keeps_order q gid score other now ttl h k later =
      let limit = now -ℤ ttl in
      let fresh = remove_stale limit q in
      let kept = get-remove_stale gid score limit q h k in
      let less = rank-remove_stale gid score limit q in
      let le : position gid fresh ≤ position gid q =
        omega (arith, position_lem gid score q h, position_lem gid score fresh kept, less) in
      elim (Bool-cases (is_some (get other fresh))) [
        | inl a ↦ rw a (kept, le)
        | inr a ↦
            let (still, same) = join_behind fresh gid score other now kept later a in
            rw a (still, omega (arith, le, same))
      ]
