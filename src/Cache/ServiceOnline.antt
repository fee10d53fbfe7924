-- ===== src/Cache/ServiceOnline.antt =====
-- cache/src/service_online.rs: the counts of players that the instances of one type of service publish, a
-- Redis hash with a life time, which each publication begins anew. Times are in milliseconds, durations in
-- nanoseconds. A failed assertion is `none`; the name of the hash is not modelled.
mod Laws
mod Examples
use xkk.Common.{
  ℕ, Bool, true, false, ◌||◌, ◌*◌, ◌+◌, ◌/◌, ◌^◌, ◌-◌, Option, none, some, List, [], ◌∷◌,
  if◌then◌else◌, leb, ltb, eqb,
}
use xkk.Common.Int.{ℤ, pos, leb_ℤ, ltb_ℤ}
use xkk.Common.Keys.{Map, get, insert, remove, int_key}

pub record ServiceOnlineCount : Type 0 where
  pub instance_id : ℤ
  pub online_count : ℤ

pub record Hash : Type 0 where
  pub fields : Map ℤ ℤ
  pub expires_at : ℕ

abbrev pub ttl_refresh_count : ℕ
ttl_refresh_count = 3

-- `Duration::MAX`.
abbrev pub max_duration : ℕ
max_duration = 2 ^ 64 * 1_000_000_000 - 1

unfoldable pub service_online_ttl : ℕ → Option ℕ
service_online_ttl refresh_interval =
    if eqb refresh_interval 0 || ltb max_duration (refresh_interval * ttl_refresh_count)
    then none
    else some (refresh_interval * ttl_refresh_count)

-- What is left of the hash at a time.
unfoldable pub live : ℕ → Hash → Map ℤ ℤ
live now h = if ltb now h.expires_at then h.fields else []

unfoldable pub publish_service_online : Hash → ℕ → ℤ → ℤ → ℕ → Option Hash
publish_service_online h now instance_id online_count ttl =
    let ttl_seconds = ttl / 1_000_000_000 in
    if leb_ℤ instance_id (pos 0) || ltb_ℤ online_count (pos 0) || eqb ttl_seconds 0
    then none
    else some (record {
      fields = insert instance_id online_count (live now h);
      expires_at = now + ttl_seconds * 1_000;
    })

unfoldable pub load_service_online_counts : Hash → ℕ → List ℤ → List ServiceOnlineCount
load_service_online_counts h now [] = []
load_service_online_counts h now (instance_id ∷ instance_ids) =
    let rest = load_service_online_counts h now instance_ids in
    elim (get instance_id (live now h)) [
      | none ↦ rest
      | some online_count ↦ record { instance_id = instance_id; online_count = online_count } ∷ rest
    ]

unfoldable pub delete_service_online : Hash → ℤ → Option Hash
delete_service_online h instance_id =
    if leb_ℤ instance_id (pos 0)
    then none
    else some (record h { fields = remove instance_id h.fields })
