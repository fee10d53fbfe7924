-- ===== src/Logic/Runtime/Mailbox.antt =====
-- The mailboxes of service/logic/src/runtime.rs and the tasks that run them. The shards of the directory
-- are one map, since a player has one shard. A slot stands in the directory exactly as long as its
-- runner lives, so that the two are one `Worker`; `Phase` is where the runner stands in `run_gid`.
-- `none` is a panic. The sums of the statistics do not wrap.
pub mod Branches
pub mod Invariant
pub mod Steps
pub mod Enqueue
pub mod Runs
pub mod Order
pub mod Drain
use xkk.Common.{
  ℕ, ◌+◌, ◌-◌, Bool, ◌||◌, ◌&&◌, eqb, Option, none, some, List, [], ◌∷◌, ◌++◌, if◌then◌else◌, leb,
  ltb, is_some, not, unwrap_or, Result, ok, err,
}
use xkk.Common.Int.{ℤ}
use xkk.Common.Keys.{Map, get, insert, remove, int_key}
use xkk.Logic.Runtime.{LogicConfig, RejectReason}
use xkk.Logic.Runtime.Admission.{Admission, acquire, release, close, inflight_calls}

pub record Envelope (Cmd : Type 0) : Type 0 where
  pub command : Cmd
  pub retained_kib : ℕ

-- A runner that was spawned, that runs a call, that has answered it, that took the next one and has
-- still to drop the permit of the last, and that found its mailbox empty.
pub data Phase (Cmd : Type 0) : Type 0 where
  starting retiring : Phase Cmd
  running answered : Envelope Cmd → Phase Cmd
  releasing : ℕ → Option (Envelope Cmd) → Phase Cmd

pub record Worker (Cmd : Type 0) : Type 0 where
  pub queue : List (Envelope Cmd)
  pub inflight_calls : ℕ
  pub inflight_kib : ℕ
  pub phase : Phase Cmd

pub record Stats : Type 0 where
  pub queued : ℕ
  pub active_gids : ℕ
  pub accepted : ℕ
  pub completed : ℕ
  pub rejected_calls : ℕ
  pub rejected_kib : ℕ
  pub rejected_gid : ℕ
  pub rejected_draining : ℕ

pub record Runtime (Cmd : Type 0) : Type 0 where
  pub admission : Admission
  pub directory : Map ℤ (Worker Cmd)
  pub stats : Stats

abbrev pub new_stats : Stats
new_stats = record {
  queued = 0;
  active_gids = 0;
  accepted = 0;
  completed = 0;
  rejected_calls = 0;
  rejected_kib = 0;
  rejected_gid = 0;
  rejected_draining = 0;
}

-- What `Admission::acquire` counts where it refuses.
unfoldable pub count_rejected : Stats → RejectReason → Stats
count_rejected s RejectReason.calls = record s { rejected_calls = s.rejected_calls + 1 }
count_rejected s RejectReason.kib = record s { rejected_kib = s.rejected_kib + 1 }
count_rejected s RejectReason.gid = record s { rejected_gid = s.rejected_gid + 1 }
count_rejected s RejectReason.draining = record s { rejected_draining = s.rejected_draining + 1 }

module _ {Cmd : Type 0} where
  abbrev pub new_worker : Worker Cmd
  new_worker = record { queue = []; inflight_calls = 0; inflight_kib = 0; phase = Phase.starting }

  abbrev pub push : Worker Cmd → Envelope Cmd → Worker Cmd
  push w e = record w {
    queue = w.queue ++ (e ∷ []);
    inflight_calls = w.inflight_calls + 1;
    inflight_kib = w.inflight_kib + e.retained_kib;
  }

  -- The mailbox has no room for the call; its own KiB are never above the limit.
  unfoldable pub is_full : LogicConfig → Worker Cmd → ℕ → Bool
  is_full config w retained =
      leb config.max_calls_per_gid w.inflight_calls
      || ltb (config.max_kib_per_gid - w.inflight_kib) retained

  unfoldable pub accept :
      Runtime Cmd → Admission → ℤ → Worker Cmd → Bool → Envelope Cmd → Runtime Cmd
  accept rt admission gid w spawn_runner e = record rt {
    admission = admission;
    directory = insert gid (push w e) rt.directory;
    stats = record (rt.stats) {
      queued = rt.stats.queued + 1;
      accepted = rt.stats.accepted + 1;
      active_gids = if spawn_runner then rt.stats.active_gids + 1 else rt.stats.active_gids;
    };
  }

  -- A slot that was made for the call is removed again where the call is refused.
  admit :
      Runtime Cmd
      → ℤ
      → Option (Worker Cmd)
      → Envelope Cmd
      → Admission × Result (Unit {0}) RejectReason
      → Runtime Cmd × Result (Unit {0}) RejectReason
  unfolding accept count_rejected
  admit rt gid slot e (admission, err reason) =
      (record rt { admission = admission; stats = count_rejected rt.stats reason }, err reason)
  admit rt gid slot e (admission, ok _) =
      (accept rt admission gid (unwrap_or slot new_worker) (not (is_some slot)) e, ok tt)

  unfoldable pub enqueue :
      LogicConfig → Runtime Cmd → ℤ → ℕ → Cmd → Runtime Cmd × Result (Unit {0}) RejectReason
  unfolding is_full admit count_rejected
  enqueue config rt gid retained command =
      let slot = get gid rt.directory in
      if is_full config (unwrap_or slot new_worker) retained
      then (record rt { stats = count_rejected rt.stats RejectReason.gid }, err RejectReason.gid)
      else admit rt gid slot (record { command = command; retained_kib = retained })
          (acquire rt.admission retained)

  abbrev put : Runtime Cmd → ℤ → Worker Cmd → Runtime Cmd
  put rt gid w = record rt { directory = insert gid w rt.directory }

  dequeued : Runtime Cmd → Runtime Cmd
  dequeued rt = record rt { stats = record (rt.stats) { queued = rt.stats.queued - 1 } }

  -- `take_next`
  take_next : Runtime Cmd → ℤ → Worker Cmd → List (Envelope Cmd) → Option (Runtime Cmd)
  unfolding dequeued
  take_next rt gid w [] = none
  take_next rt gid w (e ∷ queue) =
      some (put (dequeued rt) gid (record w { queue = queue; phase = running e }))

  -- The call is executed, fails to load or to preload, or finds no dirty slot: it is answered, and
  -- counted as completed.
  answer : Runtime Cmd → ℤ → Worker Cmd → Envelope Cmd → Runtime Cmd
  answer rt gid w e =
      put (record rt { stats = record (rt.stats) { completed = rt.stats.completed + 1 } }) gid
        (record w { phase = answered e })

  -- `complete_and_take_next`
  complete_and_take_next : Runtime Cmd → ℤ → Worker Cmd → ℕ → List (Envelope Cmd) → Runtime Cmd
  unfolding dequeued
  complete_and_take_next rt gid w retained [] = put rt gid (record w {
    inflight_calls = w.inflight_calls - 1;
    inflight_kib = w.inflight_kib - retained;
    phase = releasing retained none;
  })
  complete_and_take_next rt gid w retained (e ∷ queue) = put (dequeued rt) gid (record w {
    queue = queue;
    inflight_calls = w.inflight_calls - 1;
    inflight_kib = w.inflight_kib - retained;
    phase = releasing retained (some e);
  })

  -- The drop of the permit in `finish_envelope`.
  drop_permit : Runtime Cmd → ℤ → Worker Cmd → ℕ → Option (Envelope Cmd) → Runtime Cmd
  drop_permit rt gid w retained none =
      put (record rt { admission = release rt.admission retained }) gid
        (record w { phase = Phase.retiring })
  drop_permit rt gid w retained (some e) =
      put (record rt { admission = release rt.admission retained }) gid
        (record w { phase = running e })

  -- `retire_or_take_next`
  retire_or_take_next : Runtime Cmd → ℤ → Worker Cmd → List (Envelope Cmd) → Runtime Cmd
  unfolding dequeued
  retire_or_take_next rt gid w [] = record rt {
    directory = remove gid rt.directory;
    stats = record (rt.stats) { active_gids = rt.stats.active_gids - 1 };
  }
  retire_or_take_next rt gid w (e ∷ queue) =
      put (dequeued rt) gid (record w { queue = queue; phase = running e })

  -- The next step of a runner.
  unfoldable pub run_worker : Runtime Cmd → ℤ → Worker Cmd → Phase Cmd → Option (Runtime Cmd)
  unfolding take_next answer complete_and_take_next drop_permit retire_or_take_next
  run_worker rt gid w Phase.starting = take_next rt gid w w.queue
  run_worker rt gid w (running e) = some (answer rt gid w e)
  run_worker rt gid w (answered e) = some (complete_and_take_next rt gid w e.retained_kib w.queue)
  run_worker rt gid w (releasing retained next) = some (drop_permit rt gid w retained next)
  run_worker rt gid w Phase.retiring = some (retire_or_take_next rt gid w w.queue)

  unfoldable pub run_gid : Runtime Cmd → ℤ → Option (Runtime Cmd)
  unfolding run_worker
  run_gid rt gid = elim (get gid rt.directory) [
    | none ↦ some rt
    | some w ↦ run_worker rt gid w w.phase
  ]

  -- The part of `shutdown` that refuses new calls.
  unfoldable pub start_draining : Runtime Cmd → Runtime Cmd
  start_draining rt = record rt { admission = close rt.admission }

  -- The test of the loop in `shutdown` that waits.
  unfoldable pub is_drained : Runtime Cmd → Bool
  is_drained rt = eqb (inflight_calls rt.admission) 0 && eqb rt.stats.active_gids 0
