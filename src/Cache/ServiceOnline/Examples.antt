-- ===== src/Cache/ServiceOnline/Examples.antt =====
-- Runs of the published counts.
use xkk.Common.{◌≡◌, refl, ℕ, Option, none, some, [], ◌∷◌}
use xkk.Common.Int.{pos}
use xkk.Common.Keys.{get, insert, remove, int_key}
use xkk.Cache.ServiceOnline.{
  Hash, live, service_online_ttl, publish_service_online, load_service_online_counts,
  delete_service_online,
}
use xkk.Cache.ServiceOnline.Laws.{publish_is_loaded}

abbrev one_gate : Hash
one_gate = record { fields = (pos 1, pos 40) ∷ []; expires_at = 5_000 }

abbrev two_gates : Hash
two_gates = record { fields = (pos 1, pos 40) ∷ (pos 2, pos 7) ∷ []; expires_at = 13_000 }

-- The count that the gate 1 published once lives on with the publications of the gate 2.
publish_is_loaded_example :
    load_service_online_counts two_gates 12_000 (pos 1 ∷ [])
    ≡ record { instance_id = pos 1; online_count = pos 40 } ∷ []
unfolding publish_service_online load_service_online_counts live insert get xkk.Common.Int.eqb_ℤ
publish_is_loaded_example =
    publish_is_loaded one_gate two_gates 4_000 12_000 9_000_000_000 (pos 2) (pos 1) (pos 7) refl

ttl_of_three_seconds : service_online_ttl 3_000_000_000 ≡ some 9_000_000_000
unfolding service_online_ttl
ttl_of_three_seconds = refl

deleted_gate :
    delete_service_online two_gates (pos 2)
    ≡ some (record two_gates { fields = (pos 1, pos 40) ∷ [] })
unfolding delete_service_online remove xkk.Common.Int.eqb_ℤ
deleted_gate = refl
