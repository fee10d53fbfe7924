-- ===== src/Logic/Runtime/Mailbox/Runs.antt =====
-- Runs of a runtime: calls that come in, steps of the runners and the beginning of the shutdown, in any
-- order; and that no such run panics or miscounts.
use xkk.Common.{ℕ, ◌≡◌, refl, Bool, true, false, ◌||◌, Option, none, some, List, [], ◌∷◌, arith}
use xkk.Common.Int.{ℤ}
use xkk.Common.Keys.{get, int_key}
use xkk.Common.Keys.Totals.{total}
use xkk.Logic.Runtime.{LogicConfig}
use xkk.Logic.Runtime.Admission.{new}
use xkk.Logic.Runtime.Mailbox.{Runtime, new_stats, enqueue, run_gid, start_draining}
use xkk.Logic.Runtime.Mailbox.Invariant.{IsUsable, Accounts}
use xkk.Logic.Runtime.Mailbox.Steps.{run_gid-Accounts, start_draining-Accounts}
use xkk.Logic.Runtime.Mailbox.Enqueue.{enqueue-Accounts}

pub data Action (Cmd : Type 0) : Type 0 where
  submit : ℤ → ℕ → Cmd → Action Cmd
  advance : ℤ → Action Cmd
  drain : Action Cmd

abbrev pub closes : {Cmd : Type 0} → Action Cmd → Bool
closes drain = true
closes _ = false

module _ {Cmd : Type 0} (config : LogicConfig) where
  -- A runtime that has just been made.
  abbrev pub start : Runtime Cmd
  start = record { admission = new config; directory = []; stats = new_stats }

  unfoldable pub step : Runtime Cmd → Action Cmd → Option (Runtime Cmd)
  step rt (submit gid retained command) = some (enqueue config rt gid retained command).0
  step rt (advance gid) = run_gid rt gid
  step rt drain = some (start_draining rt)

  unfoldable pub run : Runtime Cmd → List (Action Cmd) → Option (Runtime Cmd)
  unfolding step
  run rt [] = some rt
  run rt (action ∷ actions) = elim (step rt action) [ none ↦ none | some rt' ↦ run rt' actions ]

  start-Accounts : Accounts config false start
  unfolding total get
  start-Accounts = record {
    distinct = tt;
    fine = λ gid w e. absurd (cc);
    calls = refl;
    kib = refl;
    few = omega arith;
    light = omega arith;
    max_calls = refl;
    max_kib = refl;
    queued = refl;
    active = refl;
    accepted = refl;
  }

  module _ (usable : IsUsable config) where
    step-Accounts :
        (closed : Bool) (rt : Runtime Cmd) (action : Action Cmd)
        → Accounts config closed rt
        → (rt' : Runtime Cmd) × (step rt action ≡ some rt')
          × Accounts config (closes action || closed) rt'
    unfolding step
    step-Accounts closed rt (submit gid retained command) a =
        (_, refl, enqueue-Accounts config closed rt gid a usable retained command)
    step-Accounts closed rt (advance gid) a = run_gid-Accounts config closed rt gid a
    step-Accounts closed rt drain a = (_, refl, start_draining-Accounts config closed rt a usable)

    pub run_keeps :
        (closed : Bool) (rt : Runtime Cmd) (actions : List (Action Cmd))
        → Accounts config closed rt
        → (rt' : Runtime Cmd) × (run rt actions ≡ some rt')
          × (closed' : Bool) × Accounts config closed' rt'
    unfolding run
    run_keeps closed rt [] a = (rt, refl, closed, a)
    run_keeps closed rt (action ∷ actions) a =
        let (next, steps, a') = step-Accounts closed rt action a in
        let (rt', runs, closed', a'') = run_keeps (closes action || closed) next actions a' in
        (rt', rw (steps, run) runs, closed', a'')

    -- Where the limits are those that `validate` admits, no run of a new runtime panics, and after it
    -- every counter counts what it says: the admission counts the permits that are out and their KiB,
    -- both within the limits of the runtime; each mailbox counts its calls and their KiB, both within
    -- the limits of a player; and each accepted call is completed, queued or running.
    pub run-Accounts :
        (actions : List (Action Cmd))
        → (rt : Runtime Cmd) × (run start actions ≡ some rt)
          × (closed : Bool) × Accounts config closed rt
    run-Accounts actions = run_keeps false start actions start-Accounts
