-- ===== src/Public/Players/Examples.antt =====
-- Tests of the cache of the players, and the run of a flush.
use xkk.Common.{
  arith, ◌+◌, ◌≡◌, refl, ℕ, Bool, true, false, Option, none, some, List, [], ◌∷◌, is_some,
}
use xkk.Common.Int.{ℤ, pos, eqb_ℤ_iff}
use xkk.Common.Keys.{get, insert, int_key}
use xkk.Public.Players.{
  save_all, start, Players, take_dirty_snapshot, take_snapshots, save_batch, unregister,
  remove_registration_if_clean, update_player, load, update, flush_dirty, evict,
}
use xkk.Public.Players.Steps.{Step, changing, taking, unregistering, step, run, changes_are_flushed}

-- The player 7 changed, the player 8 did not.
abbrev two_players : Players ℕ
two_players = record {
  cache =
      (pos 7, record { content = 5; dirty = true })
      ∷ (pos 8, record { content = 6; dirty = false })
      ∷ [];
  registered = (pos 7, tt) ∷ [];
  store = (pos 8, 6) ∷ [];
}

-- The player 7 is loaded, a flush takes its snapshot, it changes, and the flush looks at it again.
abbrev changed_between : List (Step ℕ)
changed_between =
    changing (pos 7) (λ content. (4, true))
    ∷ taking (pos 7) true
    ∷ changing (pos 7) (λ content. (5, true))
    ∷ unregistering (pos 7)
    ∷ []

changes_are_flushed_example :
    let s' =
      flush_dirty (run (λ gid content. content) (λ gid. 0) (start []) changed_between) true in
    (get (pos 7) s'.cache ≡ some (record { content = 5; dirty = false }))
    × (get (pos 7) s'.store ≡ some 5)
    × (is_some (get (pos 7) s'.registered) ≡ false)
unfolding run step update load update_player save_batch take_snapshots take_dirty_snapshot save_all
    unregister remove_registration_if_clean insert get xkk.Common.Int.eqb_ℤ
changes_are_flushed_example =
    changes_are_flushed (λ gid content. content) (λ gid. 0) [] changed_between (pos 7) 5 true refl

-- A flush that the store refuses drops the change: the player is clean, and the store has nothing of it.
failed_flush :
    let s' = flush_dirty two_players false in
    (get (pos 7) s'.cache ≡ some (record { content = 5; dirty = false }))
    × (get (pos 7) s'.store ≡ none)
unfolding flush_dirty save_batch take_snapshots take_dirty_snapshot unregister
    remove_registration_if_clean insert get xkk.Common.Int.eqb_ℤ
failed_flush = (refl, refl)

-- A change of a player that is not in the cache loads it first, and registers it.
update_loads :
    (update
      (λ gid content. content)
      (λ gid. 0)
      two_players
      (pos 9)
      (λ content. (content + 1, true))).registered
    ≡ insert (pos 9) tt ((pos 7, tt) ∷ [])
unfolding update load update_player insert get xkk.Common.Int.eqb_ℤ
update_loads = refl

-- A player that the cache lets go is saved where it changed.
evict_saves : (evict two_players (pos 7) true).store ≡ insert (pos 7) 5 ((pos 8, 6) ∷ [])
unfolding evict take_dirty_snapshot insert get xkk.Common.Int.eqb_ℤ
evict_saves = refl
