-- ===== src/Common/Keys/Totals.antt =====
-- Sums over the values of a map whose keys are distinct.
use mathlib.Core.Path.{◌≡◌, refl}
use mathlib.Core.Logic.{inl, inr}
use mathlib.Core.Bool.{false}
use mathlib.Core.Option.{Option, none, some}
use mathlib.Core.List.{[], ◌∷◌}
use native.Mathlib.Omega.{arith}
use Prim.Native.Nat.{ℕ, ◌+◌}
use xkk.Common.Tests.{Bool-cases, is_some}
use xkk.Common.Keys.{Key, ◌==◌, Map, get, insert, remove, get-insert, get-remove}

module _ {ℓ κ} {K : Type ℓ} {V : Type κ} ⦃e : Key K⦄ where
  -- No key has two entries.
  abbrev pub Distinct : Map K V → Type 0
  Distinct [] = Unit {0}
  Distinct ((k, v) ∷ m) = (is_some (get k m) ≡ false) × Distinct m

  pub insert-Distinct : (k : K) (v : V) (m : Map K V) → Distinct m → Distinct (insert k v m)
  unfolding insert get
  insert-Distinct k v [] d = (refl, tt)
  insert-Distinct k v ((j, w) ∷ m) d = elim (Bool-cases (j == k)) [
    | inl h ↦ rw h (ground (arith, e.same_key_iff j k), d.1)
    | inr h ↦ rw h (
      ground (arith, get-insert k j v m, e.same_key_iff k j, e.same_key_iff j k),
      insert-Distinct k v m d.1,
    )
  ]

  pub remove-Distinct : (k : K) (m : Map K V) → Distinct m → Distinct (remove k m)
  unfolding remove
  remove-Distinct k [] d = tt
  remove-Distinct k ((j, w) ∷ m) d = elim (Bool-cases (j == k)) [
    | inl h ↦ rw h (remove-Distinct k m d.1)
    | inr h ↦ rw h (
      ground (arith, get-remove k j m, e.same_key_iff k j, e.same_key_iff j k),
      remove-Distinct k m d.1,
    )
  ]

  pub remove_absent : (k : K) (m : Map K V) → is_some (get k m) ≡ false → remove k m ≡ m
  unfolding remove get
  remove_absent k [] h = refl
  remove_absent k ((j, w) ∷ m) h = ground (arith, remove_absent k m)

abbrev pub weight? {ℓ} : {V : Type ℓ} → (V → ℕ) → Option V → ℕ
weight? weight none = 0
weight? weight (some v) = weight v

module _ {ℓ κ} {K : Type ℓ} {V : Type κ} (weight : V → ℕ) where
  unfoldable pub total : Map K V → ℕ
  total [] = 0
  total ((k, v) ∷ m) = weight v + total m

module _ {ℓ κ} {K : Type ℓ} {V : Type κ} ⦃e : Key K⦄ (weight : V → ℕ) where
  pub total-insert :
      (k : K) (v : V) (m : Map K V)
      → total weight (insert k v m) + weight? weight (get k m) ≡ total weight m + weight v
  unfolding total insert get
  total-insert k v [] = omega arith
  total-insert k v ((j, w) ∷ m) = ground (arith, total-insert k v m)

  pub total-remove :
      (k : K) (m : Map K V)
      → Distinct m
      → total weight (remove k m) + weight? weight (get k m) ≡ total weight m
  unfolding total remove get
  total-remove k [] d = omega arith
  total-remove k ((j, w) ∷ m) d = elim (Bool-cases (j == k)) [
    | inl h ↦ rw h (ground (arith, remove_absent k m, e.same_key_iff j k))
    | inr h ↦ rw h (ground (arith, total-remove k m d.1))
  ]

  pub total-replace :
      (k : K) (v w : V) (m : Map K V)
      → get k m ≡ some v
      → total weight (insert k w m) + weight v ≡ total weight m + weight w
  total-replace k v w m h =
      let t : total weight (insert k w m) + weight? weight (get k m) ≡ total weight m + weight w =
        total-insert k w m in
      rw h at t

  pub total-without :
      (k : K) (v : V) (m : Map K V)
      → Distinct m
      → get k m ≡ some v
      → total weight (remove k m) + weight v ≡ total weight m
  total-without k v m d h =
      let t : total weight (remove k m) + weight? weight (get k m) ≡ total weight m =
        total-remove k m d in
      rw h at t
