-- ===== src/Logic/Player/Loops.antt =====
-- The loops of `add_items` and `remove_items` over changes that name each item once.
use xkk.Common.{
  ◌≡◌, refl, ◌∙◌, inl, inr, false, some, List, [], ◌∷◌, arith, if◌then◌else◌, is_some, Bool-cases,
}
use xkk.Common.Int.{
  ℤ, pos, eqb_ℤ, eqb_ℤ_iff, eqb_ℤ_refl, ◌-ℤ◌, ◌≤ℤ◌, int_laws, -ℤ_parts, eq_of_parts, wrap_i64,
  wrap_i64_lem, i64_max, neg,
}
use xkk.Common.Keys.{Map, get, int_key}
use xkk.Common.Keys.Totals.{Distinct}
use xkk.Logic.Player.{Item, stock, put_stock, remove_changes}
use xkk.Logic.Player.Stock.{stock-put_stock, stocked, IsCount, IsCount-in_i64}
use xkk.Logic.Player.Aggregate.{Entries}

-- No stock is above the largest i64.
abbrev pub Bounded : Map ℤ ℤ → Type 0
Bounded m = (k : ℤ) → stock k m ≤ℤ pos i64_max

-- The stock covers each change.
abbrev pub Covered : Map ℤ ℤ → Map ℤ ℤ → Type 0
Covered m changes = (k a : ℤ) → get k changes ≡ some a → a ≤ℤ stock k m

pub tail_get :
    (j a : ℤ) (changes : Map ℤ ℤ) (k b : ℤ)
    → is_some (get j changes) ≡ false
    → get k changes ≡ some b
    → (eqb_ℤ j k ≡ false) × (get k ((j, a) ∷ changes) ≡ some b)
unfolding get
tail_get j a changes k b fresh e = ground (arith, eqb_ℤ_iff j k)

pub head_get : (j a : ℤ) (changes : Map ℤ ℤ) → get j ((j, a) ∷ changes) ≡ some a
unfolding get
head_get j a changes = rw (eqb_ℤ_refl j)

pub stock_cons :
    (j a k : ℤ) (changes : Map ℤ ℤ)
    → stock k ((j, a) ∷ changes) ≡ (if eqb_ℤ j k then a else stock k changes)
unfolding stock get
stock_cons j a k changes = ground arith

pub stock_fresh :
    (j : ℤ) (changes : Map ℤ ℤ) → is_some (get j changes) ≡ false → stock j changes ≡ pos 0
unfolding stock
stock_fresh j changes h = ground arith

module _ (m : Map ℤ ℤ) (j a : ℤ) (changes : Map ℤ ℤ) (d : Distinct ((j, a) ∷ changes))
    (entries : Entries ((j, a) ∷ changes)) where
  tail_Entries : Entries changes
  tail_Entries k b e = entries k b (tail_get j a changes k b d.0 e).1

  module _ (covered : Covered m ((j, a) ∷ changes)) (bounded : Bounded m) where
    left : ℤ
    left = stock j m -ℤ a

    left-IsCount : IsCount left
    unfolding left
    left-IsCount =
        let c = covered j a (head_get j a changes) in
        let p = entries j a (head_get j a changes) in
        (omega (arith, c, -ℤ_parts), omega (arith, p, bounded j, -ℤ_parts))

    wrap_left : wrap_i64 (stock j m -ℤ a) ≡ left
    unfolding left
    wrap_left = wrap_i64_lem left (IsCount-in_i64 left left-IsCount)

    head_present : get j m ≡ some (stock j m)
    head_present =
        let c = covered j a (head_get j a changes) in
        let p = entries j a (head_get j a changes) in stocked j m (omega (arith, c, p))

    abbrev next : Map ℤ ℤ
    next = put_stock j left m

    tail_Covered : Covered next changes
    tail_Covered k b e =
        let (other, here) = tail_get j a changes k b d.0 e in
        rw (stock-put_stock j k left m, other) (covered k b here)

    next-Bounded : Bounded next
    next-Bounded k =
        rw (stock-put_stock j k left m) (elim (Bool-cases (eqb_ℤ j k)) [
          | inl e ↦ rw e (left-IsCount.1)
          | inr e ↦ rw e (bounded k)
        ])

    next_left : (k : ℤ) → stock k next -ℤ stock k changes ≡ stock k m -ℤ stock k ((j, a) ∷ changes)
    unfolding left
    next_left k =
        rw (stock-put_stock j k left m, stock_cons j a k changes)
          (elim (Bool-cases (eqb_ℤ j k)) [
            | inl e ↦
                rw (e, ← (eqb_ℤ_iff j k).0 e, stock_fresh j changes d.0)
                  (omega (arith, -ℤ_parts, eq_of_parts))
            | inr e ↦ rw e
          ])

remove_changes_step :
    (m : Map ℤ ℤ) (j a current rest : ℤ) (changes after : Map ℤ ℤ) (result : List Item)
    → get j m ≡ some current
    → wrap_i64 (current -ℤ a) ≡ rest
    → remove_changes (put_stock j rest m) changes ≡ some (after, result)
    → remove_changes m ((j, a) ∷ changes)
      ≡ some (after, record { item_id = j; count = rest; change = wrap_i64 (neg a) } ∷ result)
unfolding remove_changes
remove_changes_step m j a current rest changes after result h w e =
    rw (h, remove_changes) (rw (w, e, remove_changes) (rw w refl))

sub_nothing : (k : ℤ) (m : Map ℤ ℤ) → stock k m ≡ stock k m -ℤ stock k []
unfolding stock get
sub_nothing k m = omega int_laws

-- Changes that the stock covers are all made, and each item goes down by its change.
pub remove_changes-stock :
    (m changes : Map ℤ ℤ)
    → Distinct changes
    → Entries changes
    → Covered m changes
    → Bounded m
    → (left : Map ℤ ℤ) × (result : List Item) × (remove_changes m changes ≡ some (left, result))
      × ((k : ℤ) → stock k left ≡ stock k m -ℤ stock k changes)
unfolding remove_changes
remove_changes-stock m [] d entries covered bounded = (m, [], refl, λ k. sub_nothing k m)
remove_changes-stock m ((j, a) ∷ changes) d entries covered bounded =
    let (left', result, e, h) =
      remove_changes-stock (next m j a changes d entries covered bounded) changes d.1
        (tail_Entries m j a changes d entries)
        (tail_Covered m j a changes d entries covered bounded)
        (next-Bounded m j a changes d entries covered bounded) in
    (
      left',
      record {
        item_id = j;
        count = left m j a changes d entries covered bounded;
        change = wrap_i64 (neg a);
      }
          ∷ result,
      remove_changes_step m j a (stock j m) (left m j a changes d entries covered bounded) changes
          left' result (head_present m j a changes d entries covered bounded)
          (wrap_left m j a changes d entries covered bounded) e,
      λ k. h k ∙ next_left m j a changes d entries covered bounded k,
    )
