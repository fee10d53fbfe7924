-- ===== src/Logic/Player.antt =====
-- service/logic/src/player.rs: `PlayerState`, the part of a player that Logic owns. A `HashMap` is a
-- list of entries with distinct keys; the order in which it is iterated is a parameter. Sums of
-- i64 wrap, as they do where overflow checks are off; `none` is a panic, of an index that is missing.
pub mod Stock
pub mod Aggregate
pub mod Loops
pub mod Adds
pub mod Items
pub mod RoundTrips
pub mod Session
mod Examples
use xkk.Common.{
  ℕ, Bool, true, false, not, ◌&&◌, ◌||◌, Option, none, some, List, [], ◌∷◌, any, all, if◌then◌else◌,
  is_some, is_some_and, is_empty, unwrap_or, map, ◌≡◌,
}
use xkk.Common.Int.{ℤ, pos, ◌+ℤ◌, ◌-ℤ◌, neg, ltb_ℤ, leb_ℤ, wrap_i64, checked_add}
use xkk.Common.Keys.{Map, get, insert, remove, ◌==◌, int_key}
use xkk.Common.Keys.Totals.{Distinct}
use xkk.Common.Bytes.{Bytes}
use xkk.Protocol.Status.{Status, ok_status, error_status}
use xkk.Protocol.Code

pub record PlayerInfo : Type 0 where
  pub gid : ℤ
  pub name : Bytes
  pub level : ℤ
  pub icon : ℤ
  pub exp : ℤ

pub record PlayerData : Type 0 where
  pub gid : ℤ
  pub profile : Option PlayerInfo
  pub items : Map ℤ ℤ

pub record PlayerSession : Type 0 where
  pub gate_id : ℤ
  pub session_id : ℤ

pub record PlayerState : Type 0 where
  pub player : PlayerData
  pub session : Option PlayerSession
  pub dirty : Bool

pub record Item : Type 0 where
  pub item_id : ℤ
  pub count : ℤ
  pub change : ℤ

-- A response with a status, and the items that it reports.
pub record ItemsRsp : Type 0 where
  pub status : Status
  pub items : List Item

pub record CheckItemsRsp : Type 0 where
  pub status : Status
  pub enough : Bool

pub record UseItemRsp : Type 0 where
  pub status : Status
  pub item : Option Item

pub record LogicLoginRsp : Type 0 where
  pub status : Status
  pub logic_id : ℤ
  pub old_gate_id : ℤ
  pub old_player_session : ℤ
  pub player : Option PlayerInfo
  pub items : List Item

pub record LoginResult : Type 0 where
  pub became_online : Bool
  pub response : LogicLoginRsp

-- `PlayerState::new`
abbrev pub new : PlayerData → PlayerState
new player = record { player = player; session = none; dirty = false }

-- `get(..).copied().unwrap_or(0)`
unfoldable pub stock : ℤ → Map ℤ ℤ → ℤ
stock item_id items = unwrap_or (get item_id items) (pos 0)

invalid_item : Item → Bool
invalid_item item = leb_ℤ item.item_id (pos 0) || leb_ℤ item.count (pos 0)

unfoldable pub invalid_items : List Item → Bool
unfolding invalid_item
invalid_items items = is_empty items || any invalid_item items

-- The loop of `aggregate_items`.
unfoldable pub aggregate_from : Map ℤ ℤ → List Item → Map ℤ ℤ
unfolding stock
aggregate_from aggregate [] = aggregate
aggregate_from aggregate (item ∷ items) =
    aggregate_from
      (insert item.item_id (wrap_i64 (stock item.item_id aggregate +ℤ item.count)) aggregate) items

unfoldable pub aggregate_items : List Item → Map ℤ ℤ
unfolding aggregate_from
aggregate_items items = aggregate_from [] items

-- The sorting of `items` is by the id, which no two entries share.
insert_sorted : Item → List Item → List Item
insert_sorted item [] = item ∷ []
insert_sorted item (x ∷ xs) =
    if leb_ℤ item.item_id x.item_id then item ∷ x ∷ xs else x ∷ insert_sorted item xs

sorted_items : Map ℤ ℤ → List Item
unfolding insert_sorted
sorted_items [] = []
sorted_items ((item_id, count) ∷ items) =
    insert_sorted (record { item_id = item_id; count = count; change = pos 0 }) (sorted_items items)

unfoldable pub login : PlayerState → ℤ → ℤ → PlayerState × LoginResult
unfolding sorted_items
login s gate_id session_id = (
  record s { session = some (record { gate_id = gate_id; session_id = session_id }) },
  record {
    became_online = not (is_some s.session);
    response = record {
      status = ok_status;
      logic_id = pos 0;
      old_gate_id = pos 0;
      old_player_session = pos 0;
      player = s.player.profile;
      items = sorted_items s.player.items;
    };
  },
)

unfoldable pub disconnect : PlayerState → ℤ → ℤ → PlayerState × Bool
disconnect s gate_id session_id =
    let matches =
      is_some_and s.session
        λ current. current.gate_id == gate_id && current.session_id == session_id in
    (if matches then record s { session = none } else s, matches)

-- A count of 0 leaves the map.
unfoldable pub put_stock : ℤ → ℤ → Map ℤ ℤ → Map ℤ ℤ
put_stock item_id remaining items =
    if remaining == pos 0 then remove item_id items else insert item_id remaining items

set_items : PlayerState → Map ℤ ℤ → PlayerState
set_items s items = record s { player = record (s.player) { items = items }; dirty = true }

unfoldable pub use_item : PlayerState → ℤ → ℤ → PlayerState × UseItemRsp
unfolding set_items stock put_stock
use_item s item_id count =
    let current = stock item_id s.player.items in
    let remaining = wrap_i64 (current -ℤ count) in
    if leb_ℤ item_id (pos 0) || leb_ℤ count (pos 0)
    then (
      s,
      record { status = error_status Code.invalid_argument "invalid item request"; item = none },
    )
    else if ltb_ℤ current count
    then (
      s,
      record {
        status = error_status Code.insufficient_items "insufficient items";
        item = some (record { item_id = item_id; count = current; change = pos 0 });
      },
    )
    else (
      set_items s (put_stock item_id remaining s.player.items),
      record {
        status = ok_status;
        item = some (record { item_id = item_id; count = remaining; change = neg count });
      },
    )

-- The order in which a `HashMap` is iterated: each entry comes once.
pub record Iteration : Type 0 where
  pub order : Map ℤ ℤ → Map ℤ ℤ
  pub distinct : (m : Map ℤ ℤ) → Distinct m → Distinct (order m)
  pub same : (k : ℤ) (m : Map ℤ ℤ) → Distinct m → get k (order m) ≡ get k m

-- The loop of `add_items`: the items as far as it came, and whether it came to the end.
unfoldable pub add_changes : Map ℤ ℤ → Map ℤ ℤ → Map ℤ ℤ × Bool
unfolding stock
add_changes items [] = (items, true)
add_changes items ((item_id, amount) ∷ changes) = elim (checked_add (stock item_id items) amount) [
  | none ↦ (items, false)
  | some next ↦ add_changes (insert item_id next items) changes
]

-- The loop of `remove_items`.
unfoldable pub remove_changes : Map ℤ ℤ → Map ℤ ℤ → Option (Map ℤ ℤ × List Item)
unfolding put_stock
remove_changes items [] = some (items, [])
remove_changes items ((item_id, amount) ∷ changes) = elim (get item_id items) [
  | none ↦ none
  | some current ↦
      let remaining = wrap_i64 (current -ℤ amount) in
      elim (remove_changes (put_stock item_id remaining items) changes) [
        | none ↦ none
        | some (left, result) ↦ some (
          left,
          record { item_id = item_id; count = remaining; change = wrap_i64 (neg amount) } ∷ result,
        )
      ]
]

unfoldable pub lacks : Map ℤ ℤ → ℤ × ℤ → Bool
unfolding stock
lacks items (item_id, amount) = ltb_ℤ (stock item_id items) amount

report : Map ℤ ℤ → ℤ × ℤ → Item
unfolding stock
report items (item_id, change) = record {
  item_id = item_id;
  count = stock item_id items;
  change = change;
}

module _ (hash : Iteration) where
  unfoldable pub add_items : PlayerState → List Item → PlayerState × ItemsRsp
  unfolding set_items invalid_items report
  add_items s items =
      let changes = aggregate_items items in
      let (added, fits) = add_changes s.player.items (hash.order changes) in
      if invalid_items items
      then (
        s,
        record {
          status = error_status Code.invalid_argument "invalid add-items request";
          items = [];
        },
      )
      else if not fits
      then (
        record s { player = record (s.player) { items = added } },
        record { status = error_status Code.conflict "item count overflow"; items = [] },
      )
      else (
        set_items s added,
        record { status = ok_status; items = map (report added) (hash.order changes) },
      )

  removed : PlayerState → Option (Map ℤ ℤ × List Item) → Option (PlayerState × ItemsRsp)
  unfolding set_items
  removed s none = none
  removed s (some (left, result)) =
      some (set_items s left, record { status = ok_status; items = result })

  unfoldable pub remove_items : PlayerState → List Item → Option (PlayerState × ItemsRsp)
  unfolding removed invalid_items
  remove_items s items =
      let changes = aggregate_items items in
      if invalid_items items
      then some (
        s,
        record {
          status = error_status Code.invalid_argument "invalid remove-items request";
          items = [];
        },
      )
      else if any (lacks s.player.items) (hash.order changes)
      then some (
        s,
        record { status = error_status Code.insufficient_items "insufficient items"; items = [] },
      )
      else removed s (remove_changes s.player.items (hash.order changes))

  unfoldable pub check_items : PlayerState → List Item → CheckItemsRsp
  unfolding invalid_items
  check_items s items =
      if invalid_items items
      then record {
        status = error_status Code.invalid_argument "invalid check-items request";
        enough = false;
      }
      else record {
        status = ok_status;
        enough =
            all (λ change. not (lacks s.player.items change)) (hash.order (aggregate_items items));
      }

module _ (player_name : ℤ → Bytes) where
  default_profile : ℤ → PlayerInfo
  default_profile gid = record {
    gid = gid;
    name = player_name gid;
    level = pos 1;
    icon = pos 0;
    exp = pos 0;
  }

  -- `player_name` is `format!("Player{gid}")`.
  unfoldable pub default_player : ℤ → PlayerData
  unfolding default_profile
  default_player gid = record { gid = gid; profile = some (default_profile gid); items = [] }

  unfoldable pub normalize_player : ℤ → PlayerData → PlayerData
  unfolding default_profile
  normalize_player gid player = record player {
    gid = gid;
    profile = some (record (unwrap_or player.profile (default_profile gid)) { gid = gid });
  }
