-- ===== src/Public/Players/Steps.antt =====
-- The critical sections of the players of Public in any order: a flush takes a snapshot of each player and
-- later looks at each again, and players are loaded and changed between. A player is let go in no step here.
use xkk.Common.{
  ◌≡◌, Bool, true, false, some, List, [], ◌∷◌, arith, if◌then◌else◌, is_some, inl, inr, Bool-cases,
  Option-cases,
}
use xkk.Common.Int.{ℤ, eqb_ℤ, eqb_ℤ_iff}
use xkk.Common.Keys.{Map, get, insert, get-insert, get-remove, int_key}
use xkk.Public.Players.{
  save_batch, start, flush_dirty, Player, Players, new, load, update, update_player,
  take_dirty_snapshot, remove_registration_if_clean, take_snapshots, unregister,
}
use xkk.Public.Players.Flush.{IsRegistered, flush_dirty_saves}

pub data Step (D : Type 0) : Type 0 where
  loading : ℤ → Step D
  changing : ℤ → (D → D × Bool) → Step D
  taking : ℤ → Bool → Step D
  unregistering : ℤ → Step D

module _ {D : Type 0} where
  insert-IsRegistered :
      (gid : ℤ) (p : Player D) (cache : Map ℤ (Player D)) (registered : Map ℤ (Unit {0}))
      → ((g : ℤ) (q : Player D)
          → get g cache ≡ some q
          → q.dirty ≡ true
          → is_some (get g registered) ≡ true)
      → (p.dirty ≡ true → is_some (get gid registered) ≡ true)
      → (g : ℤ) (q : Player D) → get g (insert gid p cache) ≡ some q
      → q.dirty ≡ true
      → is_some (get g registered) ≡ true
  insert-IsRegistered gid p cache registered r now g q e d = elim (Bool-cases (eqb_ℤ gid g)) [
    | inl h ↦ ground (arith, e, h, get-insert gid g p cache, eqb_ℤ_iff gid g, d, now)
    | inr h ↦ r g q (ground (arith, e, h, get-insert gid g p cache)) d
  ]

module _ {D : Type 0} (fill : ℤ → D → D) (blank : ℤ → D) where
  unfoldable pub step : Players D → Step D → Players D
  step s (loading gid) = load fill blank s gid
  step s (changing gid change) = update fill blank s gid change
  step s (taking gid saved) = save_batch (gid ∷ []) s saved
  step s (unregistering gid) = record s { registered = unregister (gid ∷ []) s.cache s.registered }

  unfoldable pub run : Players D → List (Step D) → Players D
  run s [] = s
  run s (st ∷ steps) = run (step s st) steps

  load-IsRegistered :
      (s : Players D) (gid : ℤ) → IsRegistered s → IsRegistered (load fill blank s gid)
  unfolding load
  load-IsRegistered s gid r = elim (Option-cases (get gid s.cache)) [
    | inl h ↦ elim (Option-cases (get gid s.store)) [
      | inl absent ↦
          rw (h, load, absent)
            (insert-IsRegistered gid (new fill gid (blank gid)) s.cache s.registered r
              (λ d. ground (arith, d)))
      | inr (content, stored) ↦
          rw (h, load, stored)
            (insert-IsRegistered gid (new fill gid content) s.cache s.registered r
              (λ d. ground (arith, d)))
    ]
    | inr (q, h) ↦ rw (h, load) r
  ]

  taking-IsRegistered :
      (s : Players D) (gid : ℤ) (saved : Bool)
      → IsRegistered s
      → IsRegistered (step s (taking gid saved))
  unfolding step save_batch take_snapshots take_dirty_snapshot
  taking-IsRegistered s gid saved r = elim (Option-cases (get gid s.cache)) [
    | inl h ↦ rw (h, take_snapshots) r
    | inr (q, h) ↦
        let kept =
          insert-IsRegistered gid (record q { dirty = false }) s.cache s.registered r
            (λ d. ground (arith, d)) in
        elim (Bool-cases q.dirty) [
          | inl d ↦ rw (h, take_snapshots, d) kept
          | inr d ↦ rw (h, take_snapshots, d) kept
        ]
  ]

  unregistering-IsRegistered :
      (s : Players D) (gid : ℤ) → IsRegistered s → IsRegistered (step s (unregistering gid))
  unfolding step unregister remove_registration_if_clean
  unregistering-IsRegistered s gid r g p e d = elim (Option-cases (get gid s.cache)) [
    | inl h ↦
        rw (h, unregister)
          (ground (arith, get-remove gid g s.registered, eqb_ℤ_iff gid g, r g p e d))
    | inr (q, h) ↦
        rw (h, unregister)
          (ground (arith, get-remove gid g s.registered, eqb_ℤ_iff gid g, r g p e d))
  ]

  changed-IsRegistered :
      (s : Players D) (gid : ℤ) (change : D → D × Bool)
      → IsRegistered s
      → IsRegistered (update fill blank s gid change)
  unfolding update update_player
  changed-IsRegistered s gid change r =
      let loaded = load-IsRegistered s gid r in
      elim (Option-cases (get gid (load fill blank s gid).cache)) [
        | inl h ↦ rw (h, update) loaded
        | inr (q, h) ↦ elim (Bool-cases (change q.content).1) [
          | inl c ↦
              rw (h, update, c)
                (insert-IsRegistered gid (record { content = (change q.content).0; dirty = true })
                  (load fill blank s gid).cache (insert gid tt (load fill blank s gid).registered)
                  (λ g p e d.
                    ground (
                      arith,
                      get-insert gid g tt (load fill blank s gid).registered,
                      loaded g p e d,
                    ))
                  (λ d. ground (
                    arith,
                    get-insert gid gid tt (load fill blank s gid).registered,
                    eqb_ℤ_iff gid gid,
                  )))
          | inr c ↦
              rw (h, update, c)
                (insert-IsRegistered gid (record q { content = (change q.content).0 })
                  (load fill blank s gid).cache (load fill blank s gid).registered loaded
                  (loaded gid q h))
        ]
      ]

  -- A changed player stands in the registry after every step.
  step-IsRegistered : (s : Players D) (st : Step D) → IsRegistered s → IsRegistered (step s st)
  unfolding step
  step-IsRegistered s (loading gid) r = load-IsRegistered s gid r
  step-IsRegistered s (changing gid change) r = changed-IsRegistered s gid change r
  step-IsRegistered s (taking gid saved) r = taking-IsRegistered s gid saved r
  step-IsRegistered s (unregistering gid) r = unregistering-IsRegistered s gid r

  run-IsRegistered :
      (s : Players D) (steps : List (Step D)) → IsRegistered s → IsRegistered (run s steps)
  unfolding run
  run-IsRegistered s [] r = r
  run-IsRegistered s (st ∷ steps) r = run-IsRegistered (step s st) steps (step-IsRegistered s st r)

  start-IsRegistered : (store : Map ℤ D) → IsRegistered (start store)
  unfolding get
  start-IsRegistered store gid p e d = ground (arith, e)

  -- After any loads, changes, snapshots and removals from the registry, in any order, from an empty cache, a
  -- flush that the store takes, while nothing else runs, leaves each player in the cache clean and out of
  -- the registry, and its content in the store where it was dirty; where it was clean, the store's document
  -- of it stays.
  pub changes_are_flushed :
      (store : Map ℤ D) (steps : List (Step D)) (gid : ℤ) (content : D) (dirty : Bool)
      → get gid (run (start store) steps).cache ≡ some (record { content = content; dirty = dirty })
      → let s = run (start store) steps in
        let s' = flush_dirty s true in
        (get gid s'.cache ≡ some (record { content = content; dirty = false }))
        × (get gid s'.store ≡ (if dirty then some content else get gid s.store))
        × (is_some (get gid s'.registered) ≡ false)
  changes_are_flushed store steps gid content dirty e =
      flush_dirty_saves (run (start store) steps) gid content dirty
        (run-IsRegistered (start store) steps (start-IsRegistered store)) e
