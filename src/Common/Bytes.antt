-- ===== src/Common/Bytes.antt =====
-- Texts as their bytes, with equality.
use mathlib.Core.Path.{◌≡◌, refl}
use mathlib.Core.Logic.{◌↔◌}
use mathlib.Core.Bool.{Bool, true, false, ◌&&◌}
use mathlib.Core.List.{List, [], ◌∷◌}
use native.Mathlib.Omega.{arith}
use Prim.Native.Nat.{ℕ}
use xkk.Common.Tests.{eqb, eqb_iff}
use xkk.Common.Keys.{Key}

abbrev pub Bytes : Type 0
Bytes = List ℕ

unfoldable pub eqb_bytes : Bytes → Bytes → Bool
eqb_bytes [] [] = true
eqb_bytes (x ∷ xs) (y ∷ ys) = eqb x y && eqb_bytes xs ys
eqb_bytes _ _ = false

pub eqb_bytes_iff : (a b : Bytes) → (eqb_bytes a b ≡ true) ↔ (a ≡ b)
unfolding eqb_bytes
eqb_bytes_iff [] [] = (λ h. refl, λ h. refl)
eqb_bytes_iff [] (y ∷ ys) = (λ h. cc, λ h. cc)
eqb_bytes_iff (x ∷ xs) [] = (λ h. cc, λ h. cc)
eqb_bytes_iff (x ∷ xs) (y ∷ ys) =
    let (f, g) = eqb_bytes_iff xs ys in
    (λ h. ground (arith, eqb_iff x y, f), λ h. ground (arith, eqb_iff x y, g))

instance abbrev pub bytes_key : Key Bytes
bytes_key = record { same_key = eqb_bytes; same_key_iff = eqb_bytes_iff }
