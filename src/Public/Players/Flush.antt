-- ===== src/Public/Players/Flush.antt =====
-- What a flush leaves in the cache, in the registry and in the store.
use xkk.Common.{
  ◌≡◌, refl, Bool, true, false, ◌&&◌, none, some, List, [], ◌∷◌, arith, if◌then◌else◌, not, is_some,
  is_empty, inl, inr, Bool-cases, Option-cases,
}
use xkk.Common.Int.{ℤ, eqb_ℤ, eqb_ℤ_iff}
use xkk.Common.Keys.{Map, get, insert, remove, get-insert, get-remove, int_key}
use xkk.Common.Ids.{contains}
use xkk.Public.Players.{
  Player, Players, keys, take_dirty_snapshot, remove_registration_if_clean, take_snapshots,
  save_all, save_batch, unregister, flush_dirty,
}

contains-keys :
    (gid : ℤ) (registered : Map ℤ (Unit {0}))
    → contains gid (keys registered) ≡ is_some (get gid registered)
unfolding contains get
contains-keys gid [] = refl
contains-keys gid ((g, u) ∷ registered) =
    ground (arith, contains-keys gid registered, eqb_ℤ_iff gid g, eqb_ℤ_iff g gid)

contains-empty : (gid : ℤ) (gids : List ℤ) → is_empty gids ≡ true → contains gid gids ≡ false
unfolding contains
contains-empty gid [] e = refl
contains-empty gid (g ∷ gids) e = ground (arith, e)

module _ {D : Type 0} where
  abbrev clean : Player D → Player D
  clean p = record p { dirty = false }

  module _ (g : ℤ) (gids : List ℤ) (cache : Map ℤ (Player D)) where
    take_snapshots-none :
        get g cache ≡ none → take_snapshots (g ∷ gids) cache ≡ take_snapshots gids cache
    unfolding take_snapshots
    take_snapshots-none e = rw (e, take_snapshots) refl

    take_clean :
        (content : D)
        → get g cache ≡ some (record { content = content; dirty = false })
        → take_snapshots (g ∷ gids) cache
          ≡ take_snapshots gids (insert g (record { content = content; dirty = false }) cache)
    unfolding take_snapshots take_dirty_snapshot
    take_clean content e = rw (e, take_snapshots) refl

    take_dirty :
        (content : D)
        → get g cache ≡ some (record { content = content; dirty = true })
        → take_snapshots (g ∷ gids) cache ≡ (
          (take_snapshots gids (insert g (record { content = content; dirty = false }) cache)).0,
          (g, content)
              ∷ (take_snapshots gids
                  (insert g (record { content = content; dirty = false }) cache)).1,
        )
    unfolding take_snapshots take_dirty_snapshot
    take_dirty content e = rw (e, take_snapshots) refl

  -- What a player and its document become where the batch has the player or not.
  abbrev Taken : ℤ → List ℤ → Map ℤ D → Player D → Map ℤ (Player D) × List (ℤ × D) → Type 0
  Taken gid gids store p r =
      (get gid r.0 ≡ some (if contains gid gids then clean p else p))
      × (get gid (save_all r.1 store)
          ≡ (if contains gid gids && p.dirty then some p.content else get gid store))

  take_snapshots-Taken :
      (gid : ℤ) (gids : List ℤ) (cache : Map ℤ (Player D)) (store : Map ℤ D) (content : D)
      (dirty : Bool)
      → get gid cache ≡ some (record { content = content; dirty = dirty })
      → Taken gid gids store
          (record { content = content; dirty = dirty })
          (take_snapshots gids cache)
  unfolding take_snapshots save_all contains
  take_snapshots-Taken gid [] cache store content dirty e = (e, refl)
  take_snapshots-Taken gid (g ∷ gids) cache store content dirty e =
      elim (Option-cases (get g cache)) [
        | inl found ↦
            let ih = take_snapshots-Taken gid gids cache store content dirty e in
            rw (take_snapshots-none g gids cache found) (ground (arith, eqb_ℤ_iff gid g, ih))
        | inr (q, found) ↦
            let now = get-insert g gid (clean q) cache in
            elim (Bool-cases q.dirty) [
              | inl d ↦
                  let f : get g cache ≡ some (record { content = q.content; dirty = true }) =
                    rw (← d) found in
                  let kept = get-insert g gid q.content store in
                  elim (Bool-cases (eqb_ℤ gid g)) [
                    | inl h ↦
                        let ih =
                          take_snapshots-Taken gid gids (insert g (clean q) cache)
                            (insert g q.content store) content false
                            (ground (arith, eqb_ℤ_iff gid g, eqb_ℤ_iff g gid)) in
                        rw (take_dirty g gids cache q.content f)
                          (ground (arith, eqb_ℤ_iff gid g, eqb_ℤ_iff g gid))
                    | inr h ↦
                        let ih =
                          take_snapshots-Taken gid gids (insert g (clean q) cache)
                            (insert g q.content store) content dirty
                            (ground (arith, eqb_ℤ_iff gid g, eqb_ℤ_iff g gid)) in
                        rw (take_dirty g gids cache q.content f)
                          (ground (arith, eqb_ℤ_iff gid g, eqb_ℤ_iff g gid))
                  ]
              | inr d ↦
                  let f : get g cache ≡ some (record { content = q.content; dirty = false }) =
                    rw (← d) found in
                  let ih =
                    take_snapshots-Taken gid gids (insert g (clean q) cache) store content dirty
                      (ground (arith, eqb_ℤ_iff gid g, eqb_ℤ_iff g gid)) in
                  rw (take_clean g gids cache q.content f)
                    (ground (arith, eqb_ℤ_iff gid g, eqb_ℤ_iff g gid))
            ]
      ]

  unregister-get :
      (gid : ℤ) (gids : List ℤ) (cache : Map ℤ (Player D)) (registered : Map ℤ (Unit {0}))
      (content : D)
      → get gid cache ≡ some (record { content = content; dirty = false })
      → is_some (get gid (unregister gids cache registered))
        ≡ (is_some (get gid registered) && not (contains gid gids))
  unfolding unregister remove_registration_if_clean contains
  unregister-get gid [] cache registered content e = ground arith
  unregister-get gid (g ∷ gids) cache registered content e = elim (Option-cases (get g cache)) [
    | inl found ↦
        let ih = unregister-get gid gids cache (remove g registered) content e in
        rw (found, unregister)
          (ground (arith, eqb_ℤ_iff gid g, eqb_ℤ_iff g gid, get-remove g gid registered))
    | inr (q, found) ↦ elim (Bool-cases q.dirty) [
      | inl d ↦
          let ih = unregister-get gid gids cache registered content e in
          rw (found, unregister) (rw d (ground (arith, eqb_ℤ_iff gid g, eqb_ℤ_iff g gid)))
      | inr d ↦
          let ih = unregister-get gid gids cache (remove g registered) content e in
          rw (found, unregister)
            (rw d (ground (arith, eqb_ℤ_iff gid g, eqb_ℤ_iff g gid, get-remove g gid registered)))
    ]
  ]

  -- A changed player stands in the registry.
  abbrev pub IsRegistered : Players D → Type 0
  IsRegistered s =
      (gid : ℤ) (p : Player D)
      → get gid s.cache ≡ some p
      → p.dirty ≡ true
      → is_some (get gid s.registered) ≡ true

  not_dirty :
      (s : Players D) (gid : ℤ) (content : D) (dirty : Bool)
      → IsRegistered s
      → get gid s.cache ≡ some (record { content = content; dirty = dirty })
      → is_some (get gid s.registered) ≡ false
      → dirty ≡ false
  not_dirty s gid content false r e unlisted = refl
  not_dirty s gid content true r e unlisted =
      let listed = r gid (record { content = content; dirty = true }) e refl in
      ground (arith, listed, unlisted)

  -- A flush that the store takes, while nothing else runs, leaves each player in the cache clean and out of
  -- the registry, and what had changed in the store; what had not changed is not written.
  pub flush_dirty_saves :
      (s : Players D) (gid : ℤ) (content : D) (dirty : Bool)
      → IsRegistered s
      → get gid s.cache ≡ some (record { content = content; dirty = dirty })
      → let s' = flush_dirty s true in
        (get gid s'.cache ≡ some (record { content = content; dirty = false }))
        × (get gid s'.store ≡ (if dirty then some content else get gid s.store))
        × (is_some (get gid s'.registered) ≡ false)
  unfolding flush_dirty save_batch
  flush_dirty_saves s gid content dirty r e =
      let listed = contains-keys gid s.registered in
      let t = take_snapshots-Taken gid (keys s.registered) s.cache s.store content dirty e in
      let u =
        unregister-get gid (keys s.registered) (take_snapshots (keys s.registered) s.cache).0
          s.registered content in
      elim (Bool-cases (contains gid (keys s.registered))) [
        | inl h ↦
            let some_changed : is_empty (keys s.registered) ≡ false =
              ground (arith, contains-empty gid (keys s.registered), h) in
            let kept : get gid (take_snapshots (keys s.registered) s.cache).0
                ≡ some (record { content = content; dirty = false }) =
              ground (arith, t, h) in
            rw some_changed (kept, ground (arith, t, h), ground (arith, u kept, h))
        | inr h ↦
            let unchanged : dirty ≡ false =
              not_dirty s gid content dirty r e (ground (arith, listed, h)) in
            elim (Bool-cases (is_empty (keys s.registered))) [
              | inl none_changed ↦ rw none_changed (
                ground (arith, e, unchanged),
                ground (arith, unchanged),
                ground (arith, listed, h),
              )
              | inr some_changed ↦
                  let kept : get gid (take_snapshots (keys s.registered) s.cache).0
                      ≡ some (record { content = content; dirty = false }) =
                    ground (arith, t, h, unchanged) in
                  rw some_changed
                    (kept, ground (arith, t, h, unchanged), ground (arith, u kept, h, listed))
            ]
      ]
