-- ===== src/Logic/Player/Examples.antt =====
-- Concrete players, and runs of the operations of service/logic/src/player.rs on them.
use mathlib.Core.Option.{map}
use xkk.Common.{
  ◌≡◌, ◌↔◌, refl, inl, inr, true, false, none, some, List, [], ◌∷◌, arith, if◌then◌else◌,
  Bool-cases,
}
use xkk.Common.Int.{ℤ, pos, eqb_ℤ, ◌+ℤ◌, ◌-ℤ◌, ◌≤ℤ◌, i64_max, int_laws, wrap_i64, checked_add}
use xkk.Common.Keys.{get, insert, remove, int_key}
use xkk.Protocol.Status.{ok_status, error_status}
use xkk.Protocol.Code
use xkk.Logic.Player.{
  Item, PlayerState, ItemsRsp, Iteration, stock, invalid_items, aggregate_from, aggregate_items,
  add_items, add_changes, remove_items, remove_changes, check_items, put_stock, use_item, login,
  disconnect, lacks,
}
use xkk.Logic.Player.Aggregate.{amount_of, Fits}
use xkk.Logic.Player.Loops.{Bounded}
use xkk.Logic.Player.Items.{
  Affords, HasRoom, remove_items_takes, remove_items_refuses, check_items_iff, add_items_adds,
}
use xkk.Logic.Player.RoundTrips.{remove_items-add_items, use_item-remove_items, one_item}
use xkk.Logic.Player.Session.{disconnect-login}

abbrev in_order : Iteration
in_order = record { order = λ m. m; distinct = λ m d. d; same = λ k m d. refl }

abbrev holder : PlayerState
holder = record {
  player = record { gid = pos 7; profile = none; items = (pos 3, pos 10) ∷ [] };
  session = none;
  dirty = false;
}

abbrev near_limit : PlayerState
near_limit = record {
  player = record { gid = pos 7; profile = none; items = (pos 4, pos i64_max) ∷ [] };
  session = none;
  dirty = false;
}

abbrev item : ℤ → ℤ → Item
item k n = record { item_id = k; count = n; change = pos 0 }

abbrev request : List Item
request = item (pos 3) (pos 2) ∷ item (pos 3) (pos 5) ∷ []

abbrev big_request : List Item
big_request = item (pos 3) (pos 9) ∷ item (pos 3) (pos 5) ∷ []

holder_stock : (k : ℤ) → stock k holder.player.items ≡ (if eqb_ℤ (pos 3) k then pos 10 else pos 0)
unfolding stock get
holder_stock k = ground arith

two_amounts :
    (a b : ℤ) (k : ℤ)
    → amount_of k (item (pos 3) a ∷ item (pos 3) b ∷ [])
      ≡ (if eqb_ℤ (pos 3) k then a +ℤ b else pos 0)
unfolding amount_of
two_amounts a b k = elim (Bool-cases (eqb_ℤ (pos 3) k)) [
  | inl e ↦ rw e (omega int_laws)
  | inr e ↦ rw e (omega int_laws)
]

request-Fits : Fits request
unfolding ◌+ℤ◌
request-Fits k = rw (two_amounts (pos 2) (pos 5) k) (ground arith)

big_request-Fits : Fits big_request
unfolding ◌+ℤ◌
big_request-Fits k = rw (two_amounts (pos 9) (pos 5) k) (ground arith)

request_valid : invalid_items request ≡ false
unfolding invalid_items
request_valid = refl

big_request_valid : invalid_items big_request ≡ false
unfolding invalid_items
big_request_valid = refl

holder_Bounded : Bounded holder.player.items
holder_Bounded k = rw (holder_stock k) (ground arith)

holder_nonneg : (k : ℤ) → pos 0 ≤ℤ stock k holder.player.items
holder_nonneg k = rw (holder_stock k) (ground arith)

holder_Affords : Affords holder.player.items request
unfolding ◌+ℤ◌
holder_Affords k p =
    rw (two_amounts (pos 2) (pos 5) k, holder_stock k)
      (let q = rw (two_amounts (pos 2) (pos 5) k) at p in ground arith)

holder_HasRoom : HasRoom holder.player.items request
unfolding ◌+ℤ◌
holder_HasRoom k =
    rw (two_amounts (pos 2) (pos 5) k, holder_stock k)
      (elim (Bool-cases (eqb_ℤ (pos 3) k)) [ inl e ↦ rw e refl | inr e ↦ rw e refl ])

remove_items_takes_example :
    (t : PlayerState) × (rsp : ItemsRsp) × (remove_items in_order holder request ≡ some (t, rsp))
    × (rsp.status ≡ ok_status)
    × (t.dirty ≡ true)
    × (t.session ≡ none)
    × ((k : ℤ) → stock k t.player.items ≡ stock k holder.player.items -ℤ amount_of k request)
remove_items_takes_example =
    remove_items_takes in_order request holder request_valid request-Fits holder_Bounded
      holder_Affords

remove_items_refuses_example :
    remove_items in_order holder big_request
    ≡ some (
      holder,
      record { status = error_status Code.insufficient_items "insufficient items"; items = [] },
    )
unfolding amount_of stock get eqb_ℤ ◌+ℤ◌
remove_items_refuses_example =
    remove_items_refuses in_order big_request holder (pos 3) big_request_valid big_request-Fits
      (omega arith) (omega arith)

check_items_iff_example :
    ((check_items in_order holder request).enough ≡ true) ↔ Affords holder.player.items request
check_items_iff_example = check_items_iff in_order request holder request_valid request-Fits

add_items_adds_example :
    ((add_items in_order holder request).1.status ≡ ok_status)
    × ((add_items in_order holder request).0.dirty ≡ true)
    × ((add_items in_order holder request).0.session ≡ none)
    × ((k : ℤ)
        → stock k (add_items in_order holder request).0.player.items
          ≡ stock k holder.player.items +ℤ amount_of k request)
add_items_adds_example =
    add_items_adds in_order request holder request_valid request-Fits holder_HasRoom

remove_items-add_items_example :
    (t : PlayerState) × (rsp : ItemsRsp) × (remove_items in_order
        (add_items in_order holder request).0
        request
      ≡ some (t, rsp))
    × (rsp.status ≡ ok_status)
    × ((k : ℤ) → stock k t.player.items ≡ stock k holder.player.items)
remove_items-add_items_example =
    remove_items-add_items in_order in_order request holder request_valid request-Fits
      holder_HasRoom holder_nonneg

use_item-remove_items_example :
    (t : PlayerState) × (rsp : ItemsRsp) × (remove_items in_order holder (one_item (pos 3) (pos 4))
      ≡ some (t, rsp))
    × (rsp.status ≡ (use_item holder (pos 3) (pos 4)).1.status)
    × ((j : ℤ) → stock j t.player.items ≡ stock j (use_item holder (pos 3) (pos 4)).0.player.items)
use_item-remove_items_example =
    use_item-remove_items in_order holder (pos 3) (pos 4) (omega arith) (omega arith) (omega arith)
      holder_Bounded

disconnect-login_example :
    disconnect (login holder (pos 1) (pos 11)).0 (pos 1) (pos 12)
    ≡ ((login holder (pos 1) (pos 11)).0, false)
unfolding eqb_ℤ
disconnect-login_example = disconnect-login holder (pos 1) (pos 11) (pos 1) (pos 12)

-- Two counts that are i64, and whose sum is not, aggregate to a negative amount, and "removing" them
-- adds to the stock.
wrapped_request_adds :
    map
      (λ r. r.0.player.items)
      (remove_items in_order holder (item (pos 3) (pos i64_max) ∷ item (pos 3) (pos i64_max) ∷ []))
    ≡ some ((pos 3, pos 12) ∷ [])
unfolding remove_items remove_changes aggregate_items aggregate_from put_stock lacks stock get
    insert remove eqb_ℤ wrap_i64 ◌+ℤ◌ ◌-ℤ◌ invalid_items
wrapped_request_adds = refl

-- An addition that overflows at its second item keeps the first, and the player is not marked dirty.
overflow_keeps_the_first :
    (add_items in_order near_limit (item (pos 3) (pos 1) ∷ item (pos 4) (pos 1) ∷ [])).0
    ≡ record near_limit {
      player = record (near_limit.player) { items = (pos 4, pos i64_max) ∷ (pos 3, pos 1) ∷ [] };
    }
unfolding add_items add_changes aggregate_items aggregate_from stock get insert eqb_ℤ wrap_i64 ◌+ℤ◌
    invalid_items checked_add
overflow_keeps_the_first = refl
