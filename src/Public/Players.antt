-- ===== src/Public/Players.antt =====
-- persist/src/public_player.rs and persist/src/public_players.rs: the players that Public holds in memory,
-- the registry of those that changed, and their flush. The cache is a map; it stands for the crate xlru,
-- of which `get`, `peek` and the call of the savers are used. A critical section under the lock of a
-- player is one function. The content of a player is a parameter.
pub mod Flush
pub mod Steps
mod Examples
use xkk.Common.{Bool, true, false, ◌||◌, Option, none, some, List, [], ◌∷◌, if◌then◌else◌, is_empty}
use xkk.Common.Int.{ℤ}
use xkk.Common.Keys.{Map, get, insert, remove, int_key}

pub record Player (D : Type 0) : Type 0 where
  pub content : D
  pub dirty : Bool

-- `DashSet` is a map to the unit type; the store is what the collection holds.
pub record Players (D : Type 0) : Type 0 where
  pub cache : Map ℤ (Player D)
  pub registered : Map ℤ (Unit {0})
  pub store : Map ℤ D

abbrev pub keys : Map ℤ (Unit {0}) → List ℤ
keys [] = []
keys ((gid, u) ∷ registered) = gid ∷ keys registered

module _ {D : Type 0} where
  -- `fill` sets the gid and the missing mail data; a gid is positive where it comes from.
  abbrev pub new : (ℤ → D → D) → ℤ → D → Player D
  new fill gid content = record { content = fill gid content; dirty = false }

  abbrev pub start : Map ℤ D → Players D
  start store = record { cache = []; registered = []; store = store }

  -- `PublicPlayer::update`, with the registration of a change.
  unfoldable pub update_player :
      ℤ → Player D → Map ℤ (Unit {0}) → D × Bool → Player D × Map ℤ (Unit {0})
  update_player gid p registered (content, changed) = (
    record { content = content; dirty = changed || p.dirty },
    if changed then insert gid tt registered else registered,
  )

  unfoldable pub take_dirty_snapshot : Player D → Player D × Option D
  take_dirty_snapshot p = (record p { dirty = false }, if p.dirty then some p.content else none)

  unfoldable pub remove_registration_if_clean : ℤ → Player D → Map ℤ (Unit {0}) → Map ℤ (Unit {0})
  remove_registration_if_clean gid p registered =
      if p.dirty then registered else remove gid registered

  -- `get_i64` with the loader, where the store answers: `blank` is the content of a player that has no document.
  unfoldable pub load : (ℤ → D → D) → (ℤ → D) → Players D → ℤ → Players D
  load fill blank s gid = elim (get gid s.cache) [
    | some p ↦ s
    | none ↦ record s {
      cache =
          insert gid
            (elim (get gid s.store) [
              | none ↦ new fill gid (blank gid)
              | some content ↦ new fill gid content
            ])
            s.cache;
    }
  ]

  -- `update`, where the load succeeds: an error of it ends the call before anything changes.
  unfoldable pub update : (ℤ → D → D) → (ℤ → D) → Players D → ℤ → (D → D × Bool) → Players D
  update fill blank s gid change =
      let loaded = load fill blank s gid in
      elim (get gid loaded.cache) [
        | none ↦ loaded
        | some p ↦ record loaded {
          cache =
              insert gid (update_player gid p loaded.registered (change p.content)).0 loaded.cache;
          registered = (update_player gid p loaded.registered (change p.content)).1;
        }
      ]

  -- The snapshots of `save_batch`, of those players that are in the cache.
  unfoldable pub take_snapshots : List ℤ → Map ℤ (Player D) → Map ℤ (Player D) × List (ℤ × D)
  take_snapshots [] cache = (cache, [])
  take_snapshots (gid ∷ gids) cache = elim (get gid cache) [
    | none ↦ take_snapshots gids cache
    | some p ↦ elim (take_dirty_snapshot p).1 [
      | none ↦ take_snapshots gids (insert gid (take_dirty_snapshot p).0 cache)
      | some content ↦
          let (rest, snapshots) =
            take_snapshots gids (insert gid (take_dirty_snapshot p).0 cache) in
          (rest, (gid, content) ∷ snapshots)
    ]
  ]

  unfoldable pub save_all : List (ℤ × D) → Map ℤ D → Map ℤ D
  save_all [] store = store
  save_all ((gid, content) ∷ snapshots) store = save_all snapshots (insert gid content store)

  -- `save_batch` on the players of one flush; where the store fails, the snapshots are dropped.
  unfoldable pub save_batch : List ℤ → Players D → Bool → Players D
  save_batch gids s saved = record s {
    cache = (take_snapshots gids s.cache).0;
    store = if saved then save_all (take_snapshots gids s.cache).1 s.store else s.store;
  }

  -- The loop at the end of `flush_dirty`.
  unfoldable pub unregister : List ℤ → Map ℤ (Player D) → Map ℤ (Unit {0}) → Map ℤ (Unit {0})
  unregister [] cache registered = registered
  unregister (gid ∷ gids) cache registered = unregister gids cache (elim (get gid cache) [
    | none ↦ remove gid registered
    | some p ↦ remove_registration_if_clean gid p registered
  ])

  unfoldable pub flush_dirty : Players D → Bool → Players D
  flush_dirty s saved =
      let gids = keys s.registered in
      if is_empty gids
      then s
      else let flushed = save_batch gids s saved in
        record flushed { registered = unregister gids flushed.cache flushed.registered }

  -- The saver of a player that the cache lets go.
  unfoldable pub evict : Players D → ℤ → Bool → Players D
  evict s gid saved = elim (get gid s.cache) [
    | none ↦ s
    | some p ↦ record {
      cache = remove gid s.cache;
      registered = remove_registration_if_clean gid (take_dirty_snapshot p).0 s.registered;
      store = elim (take_dirty_snapshot p).1 [
        | none ↦ s.store
        | some content ↦ if saved then insert gid content s.store else s.store
      ];
    }
  ]
