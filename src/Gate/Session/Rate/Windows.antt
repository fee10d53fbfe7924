-- ===== src/Gate/Session/Rate/Windows.antt =====
-- Queues of times, oldest first, and the windows that end at a time.
use mathlib.Core.List.{reverse, reverse-cons}
use xkk.Common.{
  ℕ, ◌-◌, ◌≤◌, ◌<◌, ◌≡◌, refl, inl, inr, Bool, ◌&&◌, List, [], ◌∷◌, ◌++◌, arith, ltb, leb, length,
  filter, drop_while, take_while, All, All-append, All-map_of, Bool-cases,
}

-- The times within the window that ends at `now`: `(now - window, now]`.
abbrev pub within : ℕ → ℕ → ℕ → Bool
within window now at = leb at now && ltb (now - at) window

unfoldable pub count_within : ℕ → ℕ → List ℕ → ℕ
count_within window now times = length (filter (within window now) times)

-- The times do not fall, from `now` on.
abbrev pub Ascending : ℕ → List ℕ → Type 0
Ascending now [] = Unit {0}
Ascending now (t ∷ ts) = (now ≤ t) × Ascending t ts

-- Newest first, up to `now`.
abbrev pub Descending : ℕ → List ℕ → Type 0
Descending now [] = Unit {0}
Descending now (t ∷ ts) = (t ≤ now) × Descending t ts

Descending-snoc :
    (now x : ℕ) (ys : List ℕ)
    → Descending now ys
    → All (λ y. x ≤ y) ys
    → x ≤ now
    → Descending now (ys ++ (x ∷ []))
Descending-snoc now x [] d h le = (le, tt)
Descending-snoc now x (y ∷ ys) d h le = (d.0, Descending-snoc y x ys d.1 h.1 h.0)

pub All-reverse {ℓ} : (P : ℕ → Type ℓ) (xs : List ℕ) → All P xs → All P (reverse xs)
All-reverse P [] h = tt
All-reverse P (x ∷ xs) h =
    rw (reverse-cons x xs) (All-append P (reverse xs) (x ∷ []) (All-reverse P xs h.1) (h.0, tt))

above : (lo : ℕ) (xs : List ℕ) → Ascending lo xs → All (λ y. lo ≤ y) xs
above lo [] a = tt
above lo (x ∷ xs) a =
    (a.0, All-map_of (λ y. x ≤ y) (λ y. lo ≤ y) (λ y h. omega arith) xs (above x xs a.1))

pub Descending-reverse :
    (lo now : ℕ) (xs : List ℕ)
    → Ascending lo xs
    → All (λ y. y ≤ now) xs
    → Descending now (reverse xs)
Descending-reverse lo now [] a h = tt
Descending-reverse lo now (x ∷ xs) a h = rw (reverse-cons x xs) (
    Descending-snoc now x (reverse xs) (Descending-reverse x now xs a.1 h.1)
      (All-reverse (λ y. x ≤ y) xs (above x xs a.1)) h.0)

none_within :
    (window now at : ℕ) (xs : List ℕ)
    → window ≤ now - at
    → Descending at xs
    → length (filter (within window now) xs) ≡ 0
none_within w now at [] h d = refl
none_within w now at (x ∷ xs) h d = ground (arith, none_within w now x xs)

-- On a falling list the scan that stops at the first old time counts all young ones.
pub scan-eq-count :
    (window now top : ℕ) (xs : List ℕ)
    → top ≤ now
    → Descending top xs
    → length (take_while (λ at. ltb (now - at) window) xs) ≡ length (filter (within window now) xs)
scan-eq-count w now top [] le d = refl
scan-eq-count w now top (x ∷ xs) le d =
    ground (arith, none_within w now x xs, scan-eq-count w now x xs)

All-within :
    (window now lo : ℕ) (xs : List ℕ)
    → now - lo < window
    → Ascending lo xs
    → All (λ y. y ≤ now) xs
    → length (filter (within window now) xs) ≡ length xs
All-within w now lo [] h a b = refl
All-within w now lo (x ∷ xs) h a b = ground (arith, All-within w now x xs)

-- On a rising list the queue that pops its old front keeps just the young times.
pub pruned-eq-count :
    (window now lo : ℕ) (xs : List ℕ)
    → Ascending lo xs
    → All (λ y. y ≤ now) xs
    → length (drop_while (λ at. leb window (now - at)) xs) ≡ length (filter (within window now) xs)
pruned-eq-count w now lo [] a b = refl
pruned-eq-count w now lo (x ∷ xs) a b =
    ground (arith, All-within w now x xs, pruned-eq-count w now x xs)

pub Ascending-drop :
    (p : ℕ → Bool) (lo : ℕ) (xs : List ℕ) → Ascending lo xs → Ascending lo (drop_while p xs)
Ascending-drop p lo [] a = tt
Ascending-drop p lo (x ∷ xs) a = elim (Bool-cases (p x)) [
  | inl e ↦ rw e (Ascending-lower lo x (drop_while p xs) a.0 (Ascending-drop p x xs a.1))
  | inr e ↦ rw e a
]
  where
    Ascending-lower : (lo x : ℕ) (ys : List ℕ) → lo ≤ x → Ascending x ys → Ascending lo ys
    Ascending-lower lo x [] h a = tt
    Ascending-lower lo x (y ∷ ys) h a = (omega arith, a.1)

pub Ascending-snoc :
    (lo t : ℕ) (xs : List ℕ)
    → Ascending lo xs
    → All (λ y. y ≤ t) xs
    → lo ≤ t
    → Ascending lo (xs ++ (t ∷ []))
Ascending-snoc lo t [] a b h = (h, tt)
Ascending-snoc lo t (x ∷ xs) a b h = (a.0, Ascending-snoc x t xs a.1 b.1 b.0)

pub All-drop {ℓ} :
    (P : ℕ → Type ℓ) (p : ℕ → Bool) (xs : List ℕ) → All P xs → All P (drop_while p xs)
All-drop P p [] h = tt
All-drop P p (x ∷ xs) h = elim (Bool-cases (p x)) [
  | inl e ↦ rw e (All-drop P p xs h.1)
  | inr e ↦ rw e h
]
