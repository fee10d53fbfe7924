-- ===== src/Logic/Runtime/Cell.antt =====
-- `PlayerCell`, `DirtyAdmission` and `save_one` of service/logic/src/runtime.rs, with `mark_dirty` of
-- service/logic/src/stats.rs. A cell stands under its id. What happens to a cell happens under its
-- `save_gate`: `Gate` is who holds it. The state of a player is a parameter with its `is_dirty`, and what
-- a call or a saver leaves of it comes with the step. `none` is an assertion that fails.
pub mod Slots
pub mod Runs
use xkk.Common.{
  ℕ, ◌+◌, ◌-◌, Bool, true, false, not, ◌&&◌, ◌||◌, Option, none, some, List, [], ◌∷◌, if◌then◌else◌,
  ltb, eqb, is_some,
}
use xkk.Common.Keys.{Map, get, insert, remove, nat_key}

-- The gate is free; a runner holds it, with a reservation of a slot or without; or a save holds it.
pub data Gate : Type 0 where
  free saving : Gate
  prepared : Bool → Gate

pub record PlayerCell (P : Type 0) : Type 0 where
  pub state : P
  pub dirty_slot : Bool
  pub gate : Gate

-- `DirtyAdmission`, and the part of `StatsInner` that `mark_dirty` keeps, less the times.
pub record Dirty : Type 0 where
  pub slots : ℕ
  pub max : ℕ
  pub dirty_since : Map ℕ (Unit {0})
  pub dirty_players : ℕ

pub record Cells (P : Type 0) : Type 0 where
  pub players : Map ℕ (PlayerCell P)
  pub dirty : Dirty

abbrev pub new_dirty : ℕ → Dirty
new_dirty max = record { slots = 0; max = max; dirty_since = []; dirty_players = 0 }

-- `DirtyAdmission::acquire`
unfoldable pub acquire : Dirty → Option Dirty
acquire d = if ltb d.slots d.max then some (record d { slots = d.slots + 1 }) else none

-- `DirtyAdmission::release`
unfoldable pub release : Dirty → Option Dirty
release d = if ltb 0 d.slots then some (record d { slots = d.slots - 1 }) else none

unfoldable pub mark_dirty : Dirty → ℕ → Bool → Dirty
mark_dirty d id dirty =
    if dirty
    then if is_some (get id d.dirty_since) then d else record d {
      dirty_since = insert id tt d.dirty_since;
      dirty_players = d.dirty_players + 1;
    }
    else if is_some (get id d.dirty_since)
    then record d { dirty_since = remove id d.dirty_since; dirty_players = d.dirty_players - 1 }
    else d

-- The drop of an optional `DirtyPermit`.
unfoldable pub drop_permit : Dirty → Bool → Option Dirty
unfolding release
drop_permit d reserved = if reserved then release d else some d

module _ {P : Type 0} where
  -- The beginning of a call in `run_gid`; a call that finds no slot is answered with `DirtyCapacity`.
  unfoldable pub prepare : Dirty → PlayerCell P → Dirty × PlayerCell P
  prepare d p =
      if p.dirty_slot
      then (d, record p { gate = prepared false })
      else elim (acquire d) [ none ↦ (d, p) | some d' ↦ (d', record p { gate = prepared true }) ]

  -- The preload failed.
  unfoldable pub fail_preload : Dirty → PlayerCell P → Bool → Option (Dirty × PlayerCell P)
  fail_preload d p reserved = elim (drop_permit d reserved) [
    | none ↦ none
    | some d' ↦ some (d', record p { gate = Gate.free })
  ]

module _ {P : Type 0} (is_dirty : P → Bool) where
  -- `PlayerCell::new`
  unfoldable pub new_cell : Cells P → ℕ → P → Option (Cells P)
  new_cell c id state =
      if is_dirty state
      then none
      else some (record {
        players =
            insert id (record { state = state; dirty_slot = false; gate = Gate.free }) c.players;
        dirty = mark_dirty c.dirty id false;
      })

  unfoldable pub refresh_dirty : Dirty → ℕ → PlayerCell P → Option (Dirty × PlayerCell P × Bool)
  refresh_dirty d id p =
      if is_dirty p.state
      then if p.dirty_slot then some (mark_dirty d id true, p, true) else none
      else if p.dirty_slot
      then elim (release d) [
        | none ↦ none
        | some d' ↦ some (mark_dirty d' id false, record p { dirty_slot = false }, false)
      ]
      else some (mark_dirty d id false, p, false)

  unfoldable pub finish_logic :
      Dirty → ℕ → PlayerCell P → Bool → Option (Dirty × PlayerCell P × Bool)
  finish_logic d id p reserved =
      let dirty = is_dirty p.state in
      if dirty && not p.dirty_slot
      then if reserved then refresh_dirty d id (record p { dirty_slot = true }) else none
      else if reserved && dirty
      then none
      else elim (refresh_dirty d id p) [
        | none ↦ none
        | some (d', p', dirty') ↦ elim (drop_permit d' reserved) [
          | none ↦ none
          | some d'' ↦ some (d'', p', dirty')
        ]
      ]

  -- The call left this state; where it is dirty, it is saved under the same gate.
  unfoldable pub execute : Dirty → ℕ → PlayerCell P → Bool → P → Option (Dirty × PlayerCell P)
  execute d id p reserved state = elim (finish_logic d id (record p { state = state }) reserved) [
    | none ↦ none
    | some (d', p', dirty) ↦
        some (d', record p' { gate = if dirty then Gate.saving else Gate.free })
  ]

  -- A save of the cache takes the gate; it has nothing to do where the player is not dirty.
  unfoldable pub begin_save : PlayerCell P → PlayerCell P
  begin_save p = if is_dirty p.state then record p { gate = Gate.saving } else p

  -- The saver left this state, and succeeded or failed.
  unfoldable pub end_save : Dirty → ℕ → PlayerCell P → P → Option (Dirty × PlayerCell P)
  end_save d id p state = elim (refresh_dirty d id (record p { state = state })) [
    | none ↦ none
    | some (d', p', dirty) ↦ some (d', record p' { gate = Gate.free })
  ]

-- What happens to a cell whose gate allows it, and to the cells of a runtime: a player that is loaded has
-- an id that no other had.
pub data Act (P : Type 0) : Type 0 where
  prepares fails_preload begins_save : Act P
  executes ends_save : P → Act P

pub data Action (P : Type 0) : Type 0 where
  loads : ℕ → P → Action P
  on : ℕ → Act P → Action P

module _ {P : Type 0} where
  unfoldable pub put : Cells P → ℕ → Option (Dirty × PlayerCell P) → Option (Cells P)
  put c id none = none
  put c id (some (d, p)) = some (record { players = insert id p c.players; dirty = d })

module _ {P : Type 0} (is_dirty : P → Bool) where
  unfoldable pub act : Dirty → ℕ → PlayerCell P → Gate → Act P → Option (Dirty × PlayerCell P)
  act d id p Gate.free prepares = some (prepare d p)
  act d id p (prepared r) fails_preload = fail_preload d p r
  act d id p (prepared r) (executes state) = execute is_dirty d id p r state
  act d id p Gate.free begins_save = some (d, begin_save is_dirty p)
  act d id p Gate.saving (ends_save state) = end_save is_dirty d id p state
  act d id p _ _ = some (d, p)

  unfoldable pub step : Cells P → Action P → Option (Cells P)
  step c (loads id state) =
      if is_some (get id c.players) then some c else new_cell is_dirty c id state
  step c (on id a) = elim (get id c.players) [
    | none ↦ some c
    | some p ↦ put c id (act c.dirty id p p.gate a)
  ]

  unfoldable pub run : Cells P → List (Action P) → Option (Cells P)
  run c [] = some c
  run c (a ∷ actions) = elim (step c a) [ none ↦ none | some c' ↦ run c' actions ]
