-- ===== src/Logic/Player/Aggregate.antt =====
-- `aggregate_items` sums the counts of each item, where no sum leaves the i64.
use xkk.Common.{
  ◌≡◌, refl, ◌∙◌, inl, inr, false, some, List, [], ◌∷◌, arith, if◌then◌else◌, All, any, Bool-cases,
}
use xkk.Common.Int.{
  ℤ, pos, eqb_ℤ, eqb_ℤ_iff, ◌+ℤ◌, ◌≤ℤ◌, ◌<ℤ◌, +ℤ_parts, eq_of_parts, wrap_i64, wrap_i64_lem,
  i64_max, +ℤ_assoc, zero-add_ℤ,
}
use xkk.Common.Keys.{Map, get, insert, get-insert, int_key}
use xkk.Common.Keys.Totals.{Distinct, insert-Distinct}
use xkk.Logic.Player.{Item, stock, invalid_item, invalid_items, aggregate_from, aggregate_items}
use xkk.Logic.Player.Stock.{stock-insert, IsCount, IsCount-in_i64}

-- The sum of the counts of one item in a request, which does not wrap.
unfoldable pub amount_of : ℤ → List Item → ℤ
amount_of k [] = pos 0
amount_of k (x ∷ xs) = (if eqb_ℤ x.item_id k then x.count else pos 0) +ℤ amount_of k xs

abbrev pub IsPositive : Item → Type 0
IsPositive x = (pos 0 <ℤ x.item_id) × (pos 0 <ℤ x.count)

any_invalid : (xs : List Item) → any invalid_item xs ≡ false → All IsPositive xs
unfolding invalid_item
any_invalid [] h = tt
any_invalid (x ∷ xs) h = ((ground arith, ground arith), any_invalid xs (ground arith))

pub valid-IsPositive : (xs : List Item) → invalid_items xs ≡ false → All IsPositive xs
unfolding invalid_items
valid-IsPositive xs h = any_invalid xs (ground arith)

pub amount_of_nonneg : (k : ℤ) (xs : List Item) → All IsPositive xs → pos 0 ≤ℤ amount_of k xs
unfolding amount_of
amount_of_nonneg k [] p = omega arith
amount_of_nonneg k (x ∷ xs) p = elim (Bool-cases (eqb_ℤ x.item_id k)) [
  | inl e ↦
      rw e (omega (arith, p.0.1, amount_of_nonneg k xs p.1, +ℤ_parts x.count (amount_of k xs)))
  | inr e ↦ rw e (omega (arith, amount_of_nonneg k xs p.1, +ℤ_parts (pos 0) (amount_of k xs)))
]

-- No sum of the counts of one item leaves the i64.
abbrev pub Fits : List Item → Type 0
Fits xs = (k : ℤ) → amount_of k xs ≤ℤ pos i64_max

-- Each entry holds a positive sum.
abbrev pub Entries : Map ℤ ℤ → Type 0
Entries m = (k a : ℤ) → get k m ≡ some a → pos 0 <ℤ a

module _ (m : Map ℤ ℤ) (x : Item) (xs : List Item) (p : All IsPositive (x ∷ xs))
    (nonneg : (k : ℤ) → pos 0 ≤ℤ stock k m)
    (fits : (k : ℤ) → stock k m +ℤ amount_of k (x ∷ xs) ≤ℤ pos i64_max) where
  next_sum : ℤ
  next_sum = stock x.item_id m +ℤ x.count

  next_sum-IsCount : IsCount next_sum
  unfolding next_sum amount_of
  next_sum-IsCount =
      let bound = fits x.item_id in
      let self = (eqb_ℤ_iff x.item_id x.item_id).1 refl in
      let bound' = rw self at bound in
      (
        omega (arith, +ℤ_parts, nonneg x.item_id, p.0.1),
        omega (arith, +ℤ_parts, bound', amount_of_nonneg x.item_id xs p.1),
      )

  wrap_next : wrap_i64 next_sum ≡ next_sum
  wrap_next = wrap_i64_lem next_sum (IsCount-in_i64 next_sum next_sum-IsCount)

  abbrev next_map : Map ℤ ℤ
  next_map = insert x.item_id (wrap_i64 next_sum) m

  next_stock : (k : ℤ) → stock k next_map +ℤ amount_of k xs ≡ stock k m +ℤ amount_of k (x ∷ xs)
  unfolding amount_of next_sum
  next_stock k =
      rw (wrap_next, stock-insert x.item_id k next_sum m)
        (elim (Bool-cases (eqb_ℤ x.item_id k)) [
          | inl e ↦
              rw (e, (eqb_ℤ_iff x.item_id k).0 e) (+ℤ_assoc (stock k m) x.count (amount_of k xs))
          | inr e ↦ rw (e, zero-add_ℤ (amount_of k xs))
        ])

  next_nonneg : (k : ℤ) → pos 0 ≤ℤ stock k next_map
  next_nonneg k =
      rw (wrap_next, stock-insert x.item_id k next_sum m)
        (elim (Bool-cases (eqb_ℤ x.item_id k)) [
          | inl e ↦ rw e (next_sum-IsCount.0)
          | inr e ↦ rw e (nonneg k)
        ])

  next_Entries : Entries m → Entries next_map
  unfolding next_sum
  next_Entries h k a e = elim (Bool-cases (eqb_ℤ x.item_id k)) [
    | inl f ↦ ground (
      arith,
      get-insert x.item_id k (wrap_i64 next_sum) m,
      wrap_next,
      p.0.1,
      nonneg x.item_id,
      +ℤ_parts (stock x.item_id m) x.count,
    )
    | inr f ↦ ground (arith, get-insert x.item_id k (wrap_i64 next_sum) m, h k a)
  ]

aggregate_from-stock :
    (m : Map ℤ ℤ) (xs : List Item)
    → All IsPositive xs
    → ((k : ℤ) → pos 0 ≤ℤ stock k m)
    → ((k : ℤ) → stock k m +ℤ amount_of k xs ≤ℤ pos i64_max)
    → (k : ℤ) → stock k (aggregate_from m xs) ≡ stock k m +ℤ amount_of k xs
unfolding aggregate_from amount_of next_sum
aggregate_from-stock m [] p nonneg fits k =
    omega (arith, +ℤ_parts (stock k m) (pos 0), eq_of_parts (stock k m) (stock k m +ℤ pos 0))
aggregate_from-stock m (x ∷ xs) p nonneg fits k =
    aggregate_from-stock (next_map m x xs p nonneg fits) xs p.1 (next_nonneg m x xs p nonneg fits)
      (λ j. rw (next_stock m x xs p nonneg fits j) (fits j)) k
    ∙ next_stock m x xs p nonneg fits k

aggregate_from-Entries :
    (m : Map ℤ ℤ) (xs : List Item)
    → All IsPositive xs
    → ((k : ℤ) → pos 0 ≤ℤ stock k m)
    → ((k : ℤ) → stock k m +ℤ amount_of k xs ≤ℤ pos i64_max)
    → Entries m
    → Entries (aggregate_from m xs)
unfolding aggregate_from next_sum
aggregate_from-Entries m [] p nonneg fits h = h
aggregate_from-Entries m (x ∷ xs) p nonneg fits h =
    aggregate_from-Entries (next_map m x xs p nonneg fits) xs p.1 (next_nonneg m x xs p nonneg fits)
      (λ j. rw (next_stock m x xs p nonneg fits j) (fits j)) (next_Entries m x xs p nonneg fits h)

aggregate_from-Distinct :
    (m : Map ℤ ℤ) (xs : List Item) → Distinct m → Distinct (aggregate_from m xs)
unfolding aggregate_from
aggregate_from-Distinct m [] d = d
aggregate_from-Distinct m (x ∷ xs) d =
    aggregate_from-Distinct (insert x.item_id (wrap_i64 (stock x.item_id m +ℤ x.count)) m) xs
      (insert-Distinct x.item_id (wrap_i64 (stock x.item_id m +ℤ x.count)) m d)

pub aggregate_items-Distinct : (xs : List Item) → Distinct (aggregate_items xs)
unfolding aggregate_items
aggregate_items-Distinct xs = aggregate_from-Distinct [] xs tt

-- Each item's entry in the aggregate is the sum of its counts, and is positive.
pub aggregate_items-stock :
    (xs : List Item)
    → All IsPositive xs
    → Fits xs
    → (k : ℤ) → stock k (aggregate_items xs) ≡ amount_of k xs
unfolding aggregate_items stock get
aggregate_items-stock xs p fits k =
    aggregate_from-stock [] xs p (λ j. omega arith) (λ j. rw (zero-add_ℤ (amount_of j xs)) (fits j))
      k
    ∙ zero-add_ℤ (amount_of k xs)

pub aggregate_items-Entries :
    (xs : List Item) → All IsPositive xs → Fits xs → Entries (aggregate_items xs)
unfolding aggregate_items stock get
aggregate_items-Entries xs p fits =
    aggregate_from-Entries [] xs p (λ j. omega arith)
      (λ j. rw (zero-add_ℤ (amount_of j xs)) (fits j)) (λ k a e. absurd (cc))
