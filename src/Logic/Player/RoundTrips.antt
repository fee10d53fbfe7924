-- ===== src/Logic/Player/RoundTrips.antt =====
-- `add_items` against `remove_items`, and `use_item` against `remove_items` of one item.
use xkk.Common.{
  ◌≡◌, refl, sym, ◌∙◌, inl, inr, true, false, ◌||◌, some, List, [], ◌∷◌, arith, if◌then◌else◌,
  Bool-cases,
}
use xkk.Common.Int.{
  ℤ, pos, negsuc, eqb_ℤ, eqb_ℤ_iff, eqb_ℤ_refl, ◌+ℤ◌, ◌-ℤ◌, ◌≤ℤ◌, ◌<ℤ◌, int_laws, in_i64, i64_max,
  ltb_ℤ, leb_ℤ, wrap_i64, wrap_i64_lem, +ℤ_parts, -ℤ_parts,
}
use xkk.Common.Keys.{int_key}
use xkk.Protocol.Status.{ok_status, error_status}
use xkk.Protocol.Code
use xkk.Logic.Player.{
  Item, PlayerState, ItemsRsp, Iteration, stock, invalid_item, invalid_items, add_items,
  remove_items, use_item,
}
use xkk.Logic.Player.Stock.{IsCount-in_i64, stock-put_stock}
use xkk.Logic.Player.Aggregate.{amount_of, Fits}
use xkk.Logic.Player.Loops.{Bounded}
use xkk.Logic.Player.Items.{
  Affords, HasRoom, add_items_adds, remove_items_takes, remove_items_refuses,
}

in_i64_bound : (a : ℤ) → in_i64 a ≡ true → a ≤ℤ pos i64_max
in_i64_bound (pos n) h = ground arith
in_i64_bound (negsuc n) h = omega arith

-- A valid request that is added, where neither a sum of its counts nor a sum with the stock leaves
-- the i64 and no stock is negative, can be removed again, and then each item is as it was.
pub remove_items-add_items :
    (hash again : Iteration) (items : List Item) (s : PlayerState)
    → invalid_items items ≡ false
    → Fits items
    → HasRoom s.player.items items
    → ((k : ℤ) → pos 0 ≤ℤ stock k s.player.items)
    → (t : PlayerState) × (rsp : ItemsRsp) × (remove_items again (add_items hash s items).0 items
        ≡ some (t, rsp))
      × (rsp.status ≡ ok_status)
      × ((k : ℤ) → stock k t.player.items ≡ stock k s.player.items)
remove_items-add_items hash again items s valid fits room nonneg =
    let (status, dirty, session, added) = add_items_adds hash items s valid fits room in
    let bounded : Bounded (add_items hash s items).0.player.items =
      λ k. rw (added k) (in_i64_bound (stock k s.player.items +ℤ amount_of k items) (room k)) in
    let affords : Affords (add_items hash s items).0.player.items items = λ k p.
      rw (added k)
        (omega (arith, nonneg k, +ℤ_parts (stock k s.player.items) (amount_of k items))) in
    let (t, rsp, e, ok, d, x, h) =
      remove_items_takes again items (add_items hash s items).0 valid fits bounded affords in
    (t, rsp, e, ok, λ k. h k ∙ rw (added k) (omega int_laws))

abbrev pub one_item : ℤ → ℤ → List Item
one_item k n = record { item_id = k; count = n; change = pos 0 } ∷ []

one_item_valid : (k n : ℤ) → pos 0 <ℤ k → pos 0 <ℤ n → invalid_items (one_item k n) ≡ false
unfolding invalid_items invalid_item
one_item_valid k n hk hn = ground arith

amount_of_one : (k n j : ℤ) → amount_of j (one_item k n) ≡ (if eqb_ℤ k j then n else pos 0)
unfolding amount_of ◌+ℤ◌
amount_of_one k n j = elim (Bool-cases (eqb_ℤ k j)) [
  | inl e ↦ rw e (omega int_laws)
  | inr e ↦ rw e refl
]

module _ (k n : ℤ) (positive_id : pos 0 <ℤ k) (positive : pos 0 <ℤ n) (s : PlayerState) where
  use_item_short :
      stock k s.player.items <ℤ n
      → ((use_item s k n).0 ≡ s)
        × ((use_item s k n).1.status ≡ error_status Code.insufficient_items "insufficient items")
  unfolding use_item
  use_item_short short = (ground arith, ground arith)

  use_item_enough :
      n ≤ℤ stock k s.player.items
      → ((use_item s k n).1.status ≡ ok_status)
        × ((j : ℤ)
            → stock j (use_item s k n).0.player.items ≡ (
                if eqb_ℤ k j
                then wrap_i64 (stock k s.player.items -ℤ n)
                else stock j s.player.items))
  unfolding use_item
  use_item_enough enough =
      let valid_id : (leb_ℤ k (pos 0) || leb_ℤ n (pos 0)) ≡ false = ground arith in
      let covers : ltb_ℤ (stock k s.player.items) n ≡ false = ground arith in
      rw (valid_id, covers)
        (refl, λ j. stock-put_stock k j (wrap_i64 (stock k s.player.items -ℤ n)) s.player.items)

  module _ (hash : Iteration) (bounded : Bounded s.player.items) (fits : Fits (one_item k n)) where
    here : amount_of k (one_item k n) ≡ n
    here = amount_of_one k n k ∙ rw (eqb_ℤ_refl k) refl

    one_Affords : n ≤ℤ stock k s.player.items → Affords s.player.items (one_item k n)
    one_Affords enough j p = elim (Bool-cases (eqb_ℤ k j)) [
      | inl e ↦ rw (amount_of_one k n j, e, ← (eqb_ℤ_iff k j).0 e) enough
      | inr e ↦ let nothing = rw (amount_of_one k n j, e) at p in absurd (omega (arith, nothing))
    ]

    taken :
        n ≤ℤ stock k s.player.items
        → (j : ℤ)
        → stock j (use_item s k n).0.player.items
          ≡ stock j s.player.items -ℤ amount_of j (one_item k n)
    taken enough j =
        let remaining = stock k s.player.items -ℤ n in
        let wrap = wrap_i64_lem remaining (
          IsCount-in_i64 remaining
            (omega (arith, enough, -ℤ_parts), omega (arith, positive, bounded k, -ℤ_parts))) in
        rw ((use_item_enough enough).1 j, wrap, amount_of_one k n j)
          (elim (Bool-cases (eqb_ℤ k j)) [
            | inl e ↦ rw (e, ← (eqb_ℤ_iff k j).0 e) refl
            | inr e ↦ rw e (omega int_laws)
          ])

    agree :
        (t : PlayerState) × (rsp : ItemsRsp) × (remove_items hash s (one_item k n) ≡ some (t, rsp))
        × (rsp.status ≡ (use_item s k n).1.status)
        × ((j : ℤ) → stock j t.player.items ≡ stock j (use_item s k n).0.player.items)
    agree = elim (Bool-cases (ltb_ℤ (stock k s.player.items) n)) [
      | inl e ↦
          let short : stock k s.player.items <ℤ n = ground arith in
          let (same, status) = use_item_short short in
          (
            s,
            record {
              status = error_status Code.insufficient_items "insufficient items";
              items = [];
            },
            remove_items_refuses hash (one_item k n) s k (one_item_valid k n positive_id positive)
                fits (rw here positive) (rw here short),
            sym status,
            λ j. rw same refl,
          )
      | inr e ↦
          let enough : n ≤ℤ stock k s.player.items = ground arith in
          let (t, rsp, removes, ok, d, x, h) =
            remove_items_takes hash (one_item k n) s (one_item_valid k n positive_id positive) fits
              bounded (one_Affords enough) in
          (t, rsp, removes, ok ∙ sym (use_item_enough enough).0, λ j. h j ∙ sym (taken enough j))
    ]

one_item-Fits : (k n : ℤ) → n ≤ℤ pos i64_max → Fits (one_item k n)
one_item-Fits k n h j = elim (Bool-cases (eqb_ℤ k j)) [
  | inl e ↦ rw (amount_of_one k n j, e) h
  | inr e ↦ rw (amount_of_one k n j, e) (omega arith)
]

-- `use_item` answers and leaves the stock as `remove_items` of that one item does, where the item
-- and the count are positive i64 and no stock is above the largest i64.
pub use_item-remove_items :
    (hash : Iteration) (s : PlayerState) (k n : ℤ)
    → pos 0 <ℤ k
    → pos 0 <ℤ n
    → n ≤ℤ pos i64_max
    → Bounded s.player.items
    → (t : PlayerState) × (rsp : ItemsRsp) × (remove_items hash s (one_item k n) ≡ some (t, rsp))
      × (rsp.status ≡ (use_item s k n).1.status)
      × ((j : ℤ) → stock j t.player.items ≡ stock j (use_item s k n).0.player.items)
use_item-remove_items hash s k n hk hn h bounded =
    agree k n hk hn s hash bounded (one_item-Fits k n h)
