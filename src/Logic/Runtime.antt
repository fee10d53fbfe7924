-- ===== src/Logic/Runtime.antt =====
-- service/logic/src/runtime.rs: the runtime of Logic, which runs the calls of each player one after
-- another. Its parts are the admission of calls to the whole runtime (Admission), the mailboxes and
-- their runners (Mailbox), and the players with their dirty slots (Cell).
pub mod Admission
pub mod Mailbox
pub mod Cell
mod Examples
use xkk.Common.{ℕ, ◌-◌, ◌^◌, Bool, ◌&&◌, leb, ltb}

-- `LogicConfig`; the ttl is in nanoseconds.
pub record LogicConfig : Type 0 where
  pub resident_capacity : ℕ
  pub ttl : ℕ
  pub shards : ℕ
  pub batch_save_count : ℕ
  pub max_dirty_players : ℕ
  pub max_inflight_calls : ℕ
  pub max_inflight_kib : ℕ
  pub max_calls_per_gid : ℕ
  pub max_kib_per_gid : ℕ

abbrev pub hard_limits : LogicConfig
hard_limits = record {
  resident_capacity = 100_000;
  ttl = 86_400_000_000_000;
  shards = 128;
  batch_save_count = 1_000;
  max_dirty_players = 100_000;
  max_inflight_calls = 100_000;
  max_inflight_kib = 262_144;
  max_calls_per_gid = 64;
  max_kib_per_gid = 1_024;
}

-- The bit of the call counter that closes the admission, and the bits that count.
abbrev pub admission_closed : ℕ
admission_closed = 2 ^ 63

abbrev pub admission_count_mask : ℕ
admission_count_mask = 2 ^ 63 - 1

-- `LogicConfig::validate` asserts this.
unfoldable pub validate : (ℕ → Bool) → LogicConfig → Bool
validate is_power_of_two config =
    ltb 0 config.resident_capacity
    && ltb 0 config.ttl
    && is_power_of_two config.shards
    && ltb 0 config.batch_save_count
    && ltb 0 config.max_dirty_players
    && ltb 0 config.max_inflight_calls
    && leb config.max_inflight_calls admission_count_mask
    && ltb 0 config.max_inflight_kib
    && ltb 0 config.max_calls_per_gid
    && ltb 0 config.max_kib_per_gid

pub data RejectReason : Type 0 where
  calls kib gid draining : RejectReason
