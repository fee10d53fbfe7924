-- ===== src/Query/Ids/Examples.antt =====
-- A request of Query for two players, and one that names a player twice.
use xkk.Common.{◌<◌, ◌≡◌, ◌↔◌, refl, none, some, Option, List, [], ◌∷◌}
use xkk.Common.Ids.{contains, distinct_positive}
use xkk.Common.Int.{ℤ, pos, eqb_ℤ}
use xkk.Protocol.Status.{ok_status}
use xkk.Logic.Player.{PlayerInfo}
use xkk.Query.{valid_gamer_ids, gamer_info, max_inflight_requests}
use xkk.Query.Ids.{IsBatch, gamer_info_iff}

abbrev stored : List ℤ → Option (List PlayerInfo)
stored ids = some []

gamer_info_iff_example :
    (gamer_info 3 (pos 2 ∷ pos 1 ∷ []) stored ≡ record { status = ok_status; players = [] }) ↔ (
      (3 < max_inflight_requests)
      × IsBatch (pos 2 ∷ pos 1 ∷ [])
      × (stored (pos 2 ∷ pos 1 ∷ []) ≡ some []))
gamer_info_iff_example = gamer_info_iff 3 (pos 2 ∷ pos 1 ∷ []) stored []

twice_is_invalid : valid_gamer_ids (pos 1 ∷ pos 1 ∷ []) ≡ none
unfolding valid_gamer_ids distinct_positive contains eqb_ℤ
twice_is_invalid = refl
