-- ===== src/Logic/Player/Items.antt =====
-- `add_items`, `remove_items` and `check_items` of service/logic/src/player.rs, whatever the order
-- in which a `HashMap` is iterated.
use xkk.Common.{
  ◌≡◌, ◌↔◌, refl, sym, ◌∙◌, ap, inl, inr, true, false, not, some, List, [], ◌∷◌, any, all, arith,
  Bool-cases, unwrap_or,
}
use xkk.Common.Int.{ℤ, pos, eqb_ℤ, eqb_ℤ_iff, ◌+ℤ◌, ◌-ℤ◌, ◌≤ℤ◌, ◌<ℤ◌, in_i64}
use xkk.Common.Keys.{Map, get, int_key}
use xkk.Common.Keys.Totals.{Distinct}
use xkk.Protocol.Status.{ok_status, error_status}
use xkk.Protocol.Code
use xkk.Logic.Player.{
  Item, PlayerState, ItemsRsp, Iteration, stock, lacks, invalid_items, aggregate_items, add_items,
  remove_items, check_items,
}
use xkk.Logic.Player.Stock.{stocked}
use xkk.Logic.Player.Aggregate.{
  amount_of, Fits, Entries, valid-IsPositive, aggregate_items-stock, aggregate_items-Entries,
  aggregate_items-Distinct,
}
use xkk.Logic.Player.Loops.{Covered, Bounded, tail_get, head_get, remove_changes-stock}
use xkk.Logic.Player.Adds.{Room, add_changes-Room, add_changes-Added}

any-lacks-Covered : (m cs : Map ℤ ℤ) → any (lacks m) cs ≡ false → Covered m cs
unfolding get lacks
any-lacks-Covered m [] h k a e = absurd (cc)
any-lacks-Covered m ((j, b) ∷ cs) h k a e = elim (Bool-cases (eqb_ℤ j k)) [
  | inl f ↦ let here = (eqb_ℤ_iff j k).0 f in rw (← here) (ground (arith, eqb_ℤ_iff j k))
  | inr f ↦ any-lacks-Covered m cs (ground arith) k a (ground arith)
]

Covered-any-lacks : (m cs : Map ℤ ℤ) → Distinct cs → Covered m cs → any (lacks m) cs ≡ false
unfolding lacks
Covered-any-lacks m [] d covered = refl
Covered-any-lacks m ((j, b) ∷ cs) d covered =
    let here = covered j b (head_get j b cs) in
    let rest = Covered-any-lacks m cs d.1 (λ k a e. covered k a (tail_get j b cs k a d.0 e).1) in
    ground arith

all-not : (m cs : Map ℤ ℤ) → all (λ c. not (lacks m c)) cs ≡ not (any (lacks m) cs)
all-not m [] = refl
all-not m (c ∷ cs) = ground (arith, all-not m cs)

stock_of : (k a : ℤ) (m : Map ℤ ℤ) → get k m ≡ some a → stock k m ≡ a
unfolding stock
stock_of k a m e = rw e refl

-- The items hold at least what the request asks of each item.
abbrev pub Affords : Map ℤ ℤ → List Item → Type 0
Affords m items = (k : ℤ) → pos 0 <ℤ amount_of k items → amount_of k items ≤ℤ stock k m

-- Each item asked for has room for the sum.
abbrev pub HasRoom : Map ℤ ℤ → List Item → Type 0
HasRoom m items = (k : ℤ) → in_i64 (stock k m +ℤ amount_of k items) ≡ true

module _ (hash : Iteration) (items : List Item) (valid : invalid_items items ≡ false)
    (fits : Fits items) where
  abbrev changes : Map ℤ ℤ
  changes = hash.order (aggregate_items items)

  changes-Distinct : Distinct changes
  changes-Distinct = hash.distinct (aggregate_items items) (aggregate_items-Distinct items)

  changes-get : (k : ℤ) → get k changes ≡ get k (aggregate_items items)
  changes-get k = hash.same k (aggregate_items items) (aggregate_items-Distinct items)

  changes-stock : (k : ℤ) → stock k changes ≡ amount_of k items
  unfolding stock
  changes-stock k =
      ap (λ o. unwrap_or o (pos 0)) (changes-get k)
      ∙ aggregate_items-stock items (valid-IsPositive items valid) fits k

  changes-Entries : Entries changes
  changes-Entries k a e =
      aggregate_items-Entries items (valid-IsPositive items valid) fits k a
        (sym (changes-get k) ∙ e)

  changes-amount : (k a : ℤ) → get k changes ≡ some a → amount_of k items ≡ a
  changes-amount k a e = sym (changes-stock k) ∙ stock_of k a changes e

  Affords-Covered : (m : Map ℤ ℤ) → Affords m items → Covered m changes
  Affords-Covered m h k a e =
      let amount = changes-amount k a e in rw (← amount) (h k (rw amount (changes-Entries k a e)))

  Covered-Affords : (m : Map ℤ ℤ) → Covered m changes → Affords m items
  Covered-Affords m h k p =
      h k (amount_of k items)
        (stocked k changes (rw (changes-stock k) p) ∙ ap some (changes-stock k))

  HasRoom-Room : (m : Map ℤ ℤ) → HasRoom m items → Room m changes
  HasRoom-Room m h k a e = rw (← changes-amount k a e) (h k)

-- A valid request that the items afford, where no sum of its counts and no stock is above the largest
-- i64, is taken in full whatever the order of the map: it does not panic, each item goes down by
-- exactly the sum of its counts, every other item stays, and the player is dirty with its session
-- unchanged.
pub remove_items_takes :
    (hash : Iteration) (items : List Item) (s : PlayerState)
    → invalid_items items ≡ false
    → Fits items
    → Bounded s.player.items
    → Affords s.player.items items
    → (t : PlayerState) × (rsp : ItemsRsp) × (remove_items hash s items ≡ some (t, rsp))
      × (rsp.status ≡ ok_status)
      × (t.dirty ≡ true)
      × (t.session ≡ s.session)
      × ((k : ℤ) → stock k t.player.items ≡ stock k s.player.items -ℤ amount_of k items)
unfolding remove_items
remove_items_takes hash items s valid fits bounded affords =
    let m = s.player.items in
    let cs = changes hash items valid fits in
    let d = changes-Distinct hash items valid fits in
    let covered = Affords-Covered hash items valid fits m affords in
    let (left, result, e, h) =
      remove_changes-stock m cs d (changes-Entries hash items valid fits) covered bounded in
    (
      record s { player = record (s.player) { items = left }; dirty = true },
      record { status = ok_status; items = result },
      rw (valid, Covered-any-lacks m cs d covered, e) refl,
      refl,
      refl,
      refl,
      λ k. rw (← changes-stock hash items valid fits k) (h k),
    )

-- A valid request, where no sum of its counts is above the largest i64, for more of some item than
-- there is changes nothing, and the answer says so.
pub remove_items_refuses :
    (hash : Iteration) (items : List Item) (s : PlayerState) (k : ℤ)
    → invalid_items items ≡ false
    → Fits items
    → pos 0 <ℤ amount_of k items
    → stock k s.player.items <ℤ amount_of k items
    → remove_items hash s items
      ≡ some (
        s,
        record { status = error_status Code.insufficient_items "insufficient items"; items = [] },
      )
unfolding remove_items
remove_items_refuses hash items s k valid fits asked short =
    let m = s.player.items in
    let cs = changes hash items valid fits in
    elim (Bool-cases (any (lacks m) cs)) [
      | inl e ↦ rw (valid, e) refl
      | inr e ↦
          let enough = Covered-Affords hash items valid fits m (any-lacks-Covered m cs e) k asked in
          absurd (omega (arith, enough, short))
    ]

-- For a valid request, where no sum of its counts is above the largest i64, `check_items` answers yes exactly when the items afford it.
pub check_items_iff :
    (hash : Iteration) (items : List Item) (s : PlayerState)
    → invalid_items items ≡ false
    → Fits items
    → ((check_items hash s items).enough ≡ true) ↔ Affords s.player.items items
unfolding check_items
check_items_iff hash items s valid fits =
    let m = s.player.items in
    let cs = changes hash items valid fits in
    rw (valid, all-not m cs)
      (
        (λ h. Covered-Affords hash items valid fits m (any-lacks-Covered m cs (ground arith))),
        (λ h.
            let none_lacks =
              Covered-any-lacks m cs (changes-Distinct hash items valid fits)
                (Affords-Covered hash items valid fits m h) in
            rw none_lacks refl),
      )

-- A valid request, where no sum of its counts is above the largest i64 and each such sum with the
-- stock is an i64, is added in full: each item goes up by exactly the sum of its counts, every other
-- item stays, and the player is dirty with its session unchanged.
pub add_items_adds :
    (hash : Iteration) (items : List Item) (s : PlayerState)
    → invalid_items items ≡ false
    → Fits items
    → HasRoom s.player.items items
    → ((add_items hash s items).1.status ≡ ok_status)
      × ((add_items hash s items).0.dirty ≡ true)
      × ((add_items hash s items).0.session ≡ s.session)
      × ((k : ℤ)
          → stock k (add_items hash s items).0.player.items
            ≡ stock k s.player.items +ℤ amount_of k items)
unfolding add_items
add_items_adds hash items s valid fits room =
    let m = s.player.items in
    let cs = changes hash items valid fits in
    let d = changes-Distinct hash items valid fits in
    let done = add_changes-Room m cs d (HasRoom-Room hash items valid fits m room) in
    rw (valid, done)
      (
        refl,
        refl,
        refl,
        λ k. rw (← changes-stock hash items valid fits k) (add_changes-Added m cs d done k),
      )
