-- ===== src/Logic/Player/Stock.antt =====
-- How many of an item a map holds, after each change of the map.
use xkk.Common.{◌≡◌, inl, inr, true, some, arith, if◌then◌else◌, Bool-cases}
use xkk.Common.Int.{ℤ, pos, negsuc, eqb_ℤ, eqb_ℤ_iff, ◌≤ℤ◌, ◌<ℤ◌, in_i64, i64_max}
use xkk.Common.Keys.{Map, get, insert, get-insert, get-remove, int_key}
use xkk.Common.Keys.Totals.{Distinct, insert-Distinct, remove-Distinct}
use xkk.Logic.Player.{stock, put_stock}

pub stock-insert :
    (j k v : ℤ) (m : Map ℤ ℤ) → stock k (insert j v m) ≡ (if eqb_ℤ j k then v else stock k m)
unfolding stock
stock-insert j k v m = rw (get-insert j k v m) (ground arith)

pub stock-put_stock :
    (j k v : ℤ) (m : Map ℤ ℤ) → stock k (put_stock j v m) ≡ (if eqb_ℤ j k then v else stock k m)
unfolding stock put_stock
stock-put_stock j k v m = elim (Bool-cases (eqb_ℤ v (pos 0))) [
  | inl e ↦ rw e (rw (get-remove j k m) (ground (arith, eqb_ℤ_iff v (pos 0))))
  | inr e ↦ rw e (rw (get-insert j k v m) (ground arith))
]

pub put_stock-Distinct : (j v : ℤ) (m : Map ℤ ℤ) → Distinct m → Distinct (put_stock j v m)
unfolding put_stock
put_stock-Distinct j v m d = elim (Bool-cases (eqb_ℤ v (pos 0))) [
  | inl e ↦ rw e (remove-Distinct j m d)
  | inr e ↦ rw e (insert-Distinct j v m d)
]

-- A stock above 0 is an entry.
pub stocked : (k : ℤ) (m : Map ℤ ℤ) → pos 0 <ℤ stock k m → get k m ≡ some (stock k m)
unfolding stock
stocked k m h = ground arith

-- Non-negative and within an i64.
abbrev pub IsCount : ℤ → Type 0
IsCount a = (pos 0 ≤ℤ a) × (a ≤ℤ pos i64_max)

pub IsCount-in_i64 : (a : ℤ) → IsCount a → in_i64 a ≡ true
IsCount-in_i64 (pos n) h = ground arith
IsCount-in_i64 (negsuc n) h = absurd (omega arith)
