-- ===== src/Logic/Runtime/Admission.antt =====
-- `Admission` of service/logic/src/runtime.rs: one u64 word holds the number of calls and the bit that
-- closes the admission, another the retained KiB. The words are below 2^64, so that the test
-- `current & CLOSED != 0` is that of the top bit, and `& COUNT_MASK` leaves the rest.
pub mod Words
use xkk.Common.{
  ℕ, ◌+◌, ◌-◌, ◌%◌, ◌^◌, Bool, Option, none, some, if◌then◌else◌, leb, ltb, Result, ok, err,
}
use xkk.Logic.Runtime.{LogicConfig, RejectReason, admission_closed}

pub record Admission : Type 0 where
  pub calls : ℕ
  pub kib : ℕ
  pub max_calls : ℕ
  pub max_kib : ℕ

abbrev pub new : LogicConfig → Admission
new config = record {
  calls = 0;
  kib = 0;
  max_calls = config.max_inflight_calls;
  max_kib = config.max_inflight_kib;
}

unfoldable pub is_closed : Admission → Bool
is_closed a = leb admission_closed a.calls

unfoldable pub inflight_calls : Admission → ℕ
inflight_calls a = a.calls % admission_closed

-- The loop with `compare_exchange_weak`, as the exchange that succeeds.
unfoldable pub acquire_call : Admission → Result Admission RejectReason
unfolding is_closed
acquire_call a =
    if is_closed a
    then err RejectReason.draining
    else if leb a.max_calls a.calls
    then err RejectReason.calls
    else ok (record a { calls = (a.calls + 1) % 2 ^ 64 })

-- `checked_add`
unfoldable pub checked_add_u64 : ℕ → ℕ → Option ℕ
checked_add_u64 a b = if ltb (a + b) (2 ^ 64) then some (a + b) else none

-- The `fetch_update` of the KiB.
abbrev pub reserve_kib : Admission → ℕ → Option Admission
reserve_kib a retained = elim (checked_add_u64 a.kib retained) [
  | none ↦ none
  | some next ↦ if leb next a.max_kib then some (record a { kib = next }) else none
]

-- The `fetch_sub` of each word; there is something to give back whenever it is called.
abbrev pub give_call : Admission → Admission
give_call a = record a { calls = a.calls - 1 }

abbrev pub give_kib : Admission → ℕ → Admission
give_kib a retained = record a { kib = a.kib - retained }

-- The rest of `acquire` after its loop: where there is no room for the KiB, the call is given back.
unfoldable pub acquire_kib : Admission → ℕ → Admission × Result (Unit {0}) RejectReason
unfolding checked_add_u64
acquire_kib a retained = elim (reserve_kib a retained) [
  | none ↦ (give_call a, err RejectReason.kib)
  | some reserved ↦ (reserved, ok tt)
]

-- The whole of it, where no other call's step comes between; Words is about those that do.
unfoldable pub acquire : Admission → ℕ → Admission × Result (Unit {0}) RejectReason
unfolding acquire_call acquire_kib
acquire a retained = elim (acquire_call a) [
  | err reason ↦ (a, err reason)
  | ok counted ↦ acquire_kib counted retained
]

-- The drop of a `GlobalPermit`, in the same way.
unfoldable pub release : Admission → ℕ → Admission
release a retained = give_kib (give_call a) retained

-- `fetch_or` with the closing bit.
unfoldable pub close : Admission → Admission
unfolding is_closed
close a = if is_closed a then a else record a { calls = a.calls + admission_closed }
