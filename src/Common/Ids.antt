-- ===== src/Common/Ids.antt =====
-- Lists of ids in requests: positive, and none twice, as a `HashSet` of those seen tells.
use mathlib.Core.Path.{◌≡◌, refl}
use mathlib.Core.Logic.{◌↔◌}
use mathlib.Core.Bool.{Bool, true, false, not, ◌&&◌}
use mathlib.Core.List.{List, [], ◌∷◌}
use native.Mathlib.Omega.{arith}
use xkk.Common.Lists.{any, All}
use xkk.Common.Int.{ℤ, pos, ltb_ℤ, eqb_ℤ, eqb_ℤ_iff, ◌<ℤ◌}

unfoldable pub contains : ℤ → List ℤ → Bool
contains id ids = any (eqb_ℤ id) ids

unfoldable pub distinct_positive : List ℤ → List ℤ → Bool
unfolding contains
distinct_positive seen [] = true
distinct_positive seen (id ∷ ids) =
    let rest = distinct_positive (id ∷ seen) ids in
    ltb_ℤ (pos 0) id && not (contains id seen) && rest

-- No id comes twice.
abbrev pub NoRepeat : List ℤ → Type 0
NoRepeat [] = Unit {0}
NoRepeat (id ∷ ids) = (contains id ids ≡ false) × NoRepeat ids

-- None of the ids is among those seen.
abbrev Fresh : List ℤ → List ℤ → Type 0
Fresh seen ids = All (λ id. contains id seen ≡ false) ids

Fresh-cons :
    (id : ℤ) (seen ids : List ℤ) → contains id ids ≡ false → Fresh seen ids → Fresh (id ∷ seen) ids
unfolding contains
Fresh-cons id seen [] h f = tt
Fresh-cons id seen (j ∷ ids) h f =
    (ground (arith, eqb_ℤ_iff j id, eqb_ℤ_iff id j, f.0), Fresh-cons id seen ids (ground arith) f.1)

Fresh-tail :
    (id : ℤ) (seen ids : List ℤ)
    → Fresh (id ∷ seen) ids
    → (contains id ids ≡ false) × Fresh seen ids
unfolding contains
Fresh-tail id seen [] f = (refl, tt)
Fresh-tail id seen (j ∷ ids) f =
    let (absent, rest) = Fresh-tail id seen ids f.1 in
    (ground (arith, eqb_ℤ_iff j id, eqb_ℤ_iff id j, f.0, absent), (ground (arith, f.0), rest))

distinct_positive_sound :
    (seen ids : List ℤ)
    → distinct_positive seen ids ≡ true
    → All (λ id. pos 0 <ℤ id) ids × NoRepeat ids × Fresh seen ids
unfolding distinct_positive
distinct_positive_sound seen [] h = (tt, tt, tt)
distinct_positive_sound seen (id ∷ ids) h =
    let (positive, differ, fresh) = distinct_positive_sound (id ∷ seen) ids (ground arith) in
    let (absent, rest) = Fresh-tail id seen ids fresh in
    ((ground arith, positive), (absent, differ), (ground arith, rest))

distinct_positive_complete :
    (seen ids : List ℤ)
    → All (λ id. pos 0 <ℤ id) ids
    → NoRepeat ids
    → Fresh seen ids
    → distinct_positive seen ids ≡ true
unfolding distinct_positive
distinct_positive_complete seen [] p d f = refl
distinct_positive_complete seen (id ∷ ids) p d f =
    let rest =
      distinct_positive_complete (id ∷ seen) ids p.1 d.1 (Fresh-cons id seen ids d.0 f.1) in
    ground (arith, rest, p.0, f.0)

Fresh-nil : (ids : List ℤ) → Fresh [] ids
unfolding contains
Fresh-nil [] = tt
Fresh-nil (id ∷ ids) = (refl, Fresh-nil ids)

pub distinct_positive_iff :
    (ids : List ℤ)
    → (distinct_positive [] ids ≡ true) ↔ (All (λ id. pos 0 <ℤ id) ids × NoRepeat ids)
distinct_positive_iff ids = (
  (λ h. let (positive, differ, fresh) = distinct_positive_sound [] ids h in (positive, differ)),
  λ h. distinct_positive_complete [] ids h.0 h.1 (Fresh-nil ids),
)
