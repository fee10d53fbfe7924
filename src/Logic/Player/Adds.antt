-- ===== src/Logic/Player/Adds.antt =====
-- The loop of `add_items` over changes that name each item once.
use xkk.Common.{◌≡◌, refl, ◌∙◌, inl, inr, true, false, some, [], ◌∷◌, Bool-cases}
use xkk.Common.Int.{ℤ, eqb_ℤ, eqb_ℤ_iff, ◌+ℤ◌, int_laws, in_i64, checked_add, add-zero_ℤ}
use xkk.Common.Keys.{Map, get, insert, int_key}
use xkk.Common.Keys.Totals.{Distinct}
use xkk.Logic.Player.{stock, add_changes}
use xkk.Logic.Player.Stock.{stock-insert}
use xkk.Logic.Player.Loops.{tail_get, head_get, stock_cons, stock_fresh}

-- No sum of a stock and its change leaves the i64.
abbrev pub Room : Map ℤ ℤ → Map ℤ ℤ → Type 0
Room m changes = (k a : ℤ) → get k changes ≡ some a → in_i64 (stock k m +ℤ a) ≡ true

-- Each item went up by its change.
abbrev pub Added : Map ℤ ℤ → Map ℤ ℤ → Map ℤ ℤ → Type 0
Added m changes after = (k : ℤ) → stock k after ≡ stock k m +ℤ stock k changes

add_nothing : (k : ℤ) (m : Map ℤ ℤ) → stock k m ≡ stock k m +ℤ stock k []
unfolding stock get
add_nothing k m = omega int_laws

add_changes_step :
    (m : Map ℤ ℤ) (j a : ℤ) (changes : Map ℤ ℤ)
    → in_i64 (stock j m +ℤ a) ≡ true
    → add_changes m ((j, a) ∷ changes) ≡ add_changes (insert j (stock j m +ℤ a) m) changes
unfolding add_changes checked_add
add_changes_step m j a changes h = rw (h, add_changes) refl

add_changes_stop :
    (m : Map ℤ ℤ) (j a : ℤ) (changes : Map ℤ ℤ)
    → in_i64 (stock j m +ℤ a) ≡ false
    → add_changes m ((j, a) ∷ changes) ≡ (m, false)
unfolding add_changes checked_add
add_changes_stop m j a changes h = rw (h, add_changes) refl

module _ (m : Map ℤ ℤ) (j a : ℤ) (changes : Map ℤ ℤ) (d : Distinct ((j, a) ∷ changes)) where
  abbrev next : Map ℤ ℤ
  next = insert j (stock j m +ℤ a) m

  next-Room : Room m ((j, a) ∷ changes) → Room next changes
  next-Room room k b e =
      let (other, here) = tail_get j a changes k b d.0 e in
      rw (stock-insert j k (stock j m +ℤ a) m, other) (room k b here)

  next_added : (k : ℤ) → stock k next +ℤ stock k changes ≡ stock k m +ℤ stock k ((j, a) ∷ changes)
  next_added k =
      rw (stock-insert j k (stock j m +ℤ a) m, stock_cons j a k changes)
        (elim (Bool-cases (eqb_ℤ j k)) [
          | inl e ↦
              rw (e, ← (eqb_ℤ_iff j k).0 e, stock_fresh j changes d.0, add-zero_ℤ (stock j m +ℤ a))
                refl
          | inr e ↦ rw e refl
        ])

-- The loop comes to the end where each sum is in range.
pub add_changes-Room :
    (m changes : Map ℤ ℤ) → Distinct changes → Room m changes → (add_changes m changes).1 ≡ true
unfolding add_changes
add_changes-Room m [] d room = refl
add_changes-Room m ((j, a) ∷ changes) d room =
    rw (add_changes_step m j a changes (room j a (head_get j a changes)))
      (add_changes-Room (next m j a changes d) changes d.1 (next-Room m j a changes d room))

-- A loop that comes to the end has made each change exactly.
pub add_changes-Added :
    (m changes : Map ℤ ℤ)
    → Distinct changes
    → (add_changes m changes).1 ≡ true
    → Added m changes (add_changes m changes).0
unfolding add_changes
add_changes-Added m [] d h k = add_nothing k m
add_changes-Added m ((j, a) ∷ changes) d h k = elim (Bool-cases (in_i64 (stock j m +ℤ a))) [
  | inl e ↦ rw (add_changes_step m j a changes e) (
      add_changes-Added (next m j a changes d) changes d.1
        (rw (add_changes_step m j a changes e) at h) k
      ∙ next_added m j a changes d k)
  | inr e ↦ let impossible = rw (add_changes_stop m j a changes e) at h in absurd (cc)
]
