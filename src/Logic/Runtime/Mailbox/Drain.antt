-- ===== src/Logic/Runtime/Mailbox/Drain.antt =====
-- The end of a runtime: once it refuses new calls, its runners finish.
use xkk.Common.{
  ℕ, zero, suc, ◌+◌, ◌*◌, ◌≤◌, ◌<◌, ◌≡◌, refl, inl, inr, true, Option, none, some, List, [], ◌∷◌,
  arith, length, leb, unwrap_or, Bool-cases, ◌∙◌, ap, ◌⊎◌,
}
use xkk.Common.Int.{ℤ}
use xkk.Common.Keys.{Map, get, insert, int_key}
use xkk.Common.Keys.Totals.{total, total-replace, total-without}
use xkk.Logic.Runtime.{LogicConfig, RejectReason, admission_closed}
use xkk.Logic.Runtime.Admission.{inflight_calls}
use xkk.Logic.Runtime.Mailbox.{
  Envelope, Phase, running, answered, releasing, Worker, Runtime, new_worker, is_full, enqueue,
  dequeued, take_next, answer, complete_and_take_next, drop_permit, retire_or_take_next, run_worker,
  run_gid, start_draining, is_drained,
}
use xkk.Logic.Runtime.Mailbox.Branches.{
  enqueue_full, enqueue_refused, run_gid-none, run_gid-some, After, After-map, reached,
}
use xkk.Logic.Runtime.Mailbox.Runs.{Action, start, run, run-Accounts}
use xkk.Logic.Runtime.Mailbox.Invariant.{IsUsable, Accounts}
use xkk.Logic.Runtime.Mailbox.Steps.{run_gid-Accounts, start_draining-Accounts}
use xkk.Logic.Runtime.Mailbox.Enqueue.{refuse_draining, enqueue-Accounts}

module _ {Cmd : Type 0} where
  -- The steps that a runner has still to make, at most.
  abbrev pub phase_work : Phase Cmd → ℕ
  phase_work Phase.starting = 1
  phase_work Phase.retiring = 1
  phase_work (releasing retained none) = 2
  phase_work (answered e) = 3
  phase_work (running e) = 4
  phase_work (releasing retained (some e)) = 5

  abbrev pub worker_work : Worker Cmd → ℕ
  worker_work w = 4 * length w.queue + phase_work w.phase

  abbrev pub work : Runtime Cmd → ℕ
  work rt = total worker_work rt.directory

  module _ (config : LogicConfig) (rt : Runtime Cmd) (gid : ℤ) (a : Accounts config true rt) where
    moved :
        (w v : Worker Cmd)
        → get gid rt.directory ≡ some w
        → worker_work v < worker_work w
        → total worker_work (insert gid v rt.directory) < total worker_work rt.directory
    moved w v e less = omega (arith, total-replace worker_work gid w v rt.directory e, less)

    -- A step of a runner is progress.
    run_worker-work :
        (queue : List (Envelope Cmd)) (n k : ℕ) (phase : Phase Cmd)
        → let w : Worker Cmd = record {
          queue = queue;
          inflight_calls = n;
          inflight_kib = k;
          phase = phase;
        } in
          get gid rt.directory ≡ some w
          → After (run_worker rt gid w phase) (λ rt'. work rt' < work rt)
    unfolding run_worker take_next answer complete_and_take_next drop_permit retire_or_take_next
        dequeued
    run_worker-work [] n k Phase.starting e = tt
    run_worker-work (x ∷ xs) n k Phase.starting e = moved _ _ e (omega arith)
    run_worker-work queue n k (running x) e = moved _ _ e (omega arith)
    run_worker-work [] n k (answered x) e = moved _ _ e (omega arith)
    run_worker-work (y ∷ ys) n k (answered x) e = moved _ _ e (omega arith)
    run_worker-work queue n k (releasing r none) e = moved _ _ e (omega arith)
    run_worker-work queue n k (releasing r (some x)) e = moved _ _ e (omega arith)
    run_worker-work [] n k Phase.retiring e =
        omega (arith, total-without worker_work gid _ rt.directory a.distinct e)
    run_worker-work (x ∷ xs) n k Phase.retiring e = moved _ _ e (omega arith)

    run_gid-work :
        (w : Worker Cmd)
        → get gid rt.directory ≡ some w
        → After (run_gid rt gid) (λ rt'. work rt' < work rt)
    run_gid-work w e =
        rw (run_gid-some rt gid w e)
          (run_worker-work w.queue w.inflight_calls w.inflight_kib w.phase e)

  phase_work_positive : (phase : Phase Cmd) → 1 ≤ phase_work phase
  phase_work_positive Phase.starting = omega arith
  phase_work_positive Phase.retiring = omega arith
  phase_work_positive (releasing retained none) = omega arith
  phase_work_positive (releasing retained (some e)) = omega arith
  phase_work_positive (answered e) = omega arith
  phase_work_positive (running e) = omega arith

  nothing_left : (d : Map ℤ (Worker Cmd)) → total worker_work d ≡ 0 → d ≡ []
  unfolding total
  nothing_left [] e = refl
  nothing_left ((gid, w) ∷ d) e = absurd (omega (arith, e, phase_work_positive w.phase))

  module _ (config : LogicConfig) where
    -- Calls that come in.
    unfoldable pub offer : Runtime Cmd → List (ℤ × ℕ × Cmd) → Runtime Cmd
    offer rt [] = rt
    offer rt ((gid, retained, command) ∷ calls) =
        offer (enqueue config rt gid retained command).0 calls

    module _ (late : Runtime Cmd → List (ℤ × ℕ × Cmd)) (pick : Runtime Cmd → ℤ) where
      -- The runners make so many steps, one after another in the order that is picked, while calls come
      -- in.
      unfoldable pub drive : ℕ → Runtime Cmd → Option (Runtime Cmd)
      unfolding offer
      drive zero rt = some rt
      drive (suc steps) rt =
          let before = offer rt (late rt) in
          elim (run_gid before (pick before)) [ none ↦ none | some rt' ↦ drive steps rt' ]

    -- A runtime that is closed takes no call.
    refuses :
        (rt : Runtime Cmd) (gid : ℤ) (retained : ℕ) (command : Cmd)
        → Accounts config true rt
        → (enqueue config rt gid retained command).0.directory ≡ rt.directory
    refuses rt gid retained command a =
        let shut : leb admission_closed rt.admission.calls ≡ true = ground (arith, a.calls) in
        elim (Bool-cases (is_full config (unwrap_or (get gid rt.directory) new_worker) retained)) [
          | inl full ↦ rw (enqueue_full config rt gid retained command full) refl
          | inr room ↦
              rw
                (enqueue_refused config rt gid retained command room rt.admission
                  RejectReason.draining (refuse_draining rt.admission retained shut))
                refl
        ]

    module _ (usable : IsUsable config) where
      offer_keeps :
          (rt : Runtime Cmd) (calls : List (ℤ × ℕ × Cmd))
          → Accounts config true rt
          → ((offer rt calls).directory ≡ rt.directory) × Accounts config true (offer rt calls)
      unfolding offer
      offer_keeps rt [] a = (refl, a)
      offer_keeps rt ((gid, retained, command) ∷ calls) a =
          let a' = enqueue-Accounts config true rt gid a usable retained command in
          let (same, a'') = offer_keeps (enqueue config rt gid retained command).0 calls a' in
          (same ∙ refuses rt gid retained command a, a'')

      drained :
          (rt : Runtime Cmd)
          → Accounts config true rt
          → rt.directory ≡ []
          → (is_drained rt ≡ true) × (rt.stats.completed ≡ rt.stats.accepted)
      unfolding is_drained inflight_calls total
      drained rt a e =
          let calls = rw e at a.calls in
          let active = rw e at a.active in
          let accepted = rw e at a.accepted in
          (ground (arith, calls, active), omega (arith, accepted))

      module _ (late : Runtime Cmd → List (ℤ × ℕ × Cmd)) (pick : Runtime Cmd → ℤ)
          (picks : (rt : Runtime Cmd)
            → (rt.directory ≡ [])
              ⊎ ((w : Worker Cmd) × (get (pick rt) rt.directory ≡ some w))) where
        progress :
            (steps : ℕ) (rt : Runtime Cmd)
            → Accounts config true rt
            → work rt ≤ suc steps
            → After (run_gid rt (pick rt)) (λ rt'. work rt' ≤ steps)
        unfolding total get
        progress steps rt a enough = elim (picks rt) [
          | inl e ↦
              let none_there : get (pick rt) rt.directory ≡ none = rw e refl in
              let none_left : work rt ≡ 0 = rw e refl in
              rw (run_gid-none rt (pick rt) none_there) (omega (arith, none_left))
          | inr (w, e) ↦
              After-map (run_gid rt (pick rt)) (λ rt'. work rt' < work rt) (λ rt'. work rt' ≤ steps)
                (λ rt' less. omega (arith, less, enough)) (run_gid-work config rt (pick rt) a w e)
        ]

        drive_drains :
            (steps : ℕ) (rt : Runtime Cmd)
            → Accounts config true rt
            → work rt ≤ steps
            → (rt' : Runtime Cmd) × (drive late pick steps rt ≡ some rt')
              × (rt'.directory ≡ [])
              × (is_drained rt' ≡ true)
              × (rt'.stats.completed ≡ rt'.stats.accepted)
        unfolding drive
        drive_drains zero rt a enough =
            let e = nothing_left rt.directory (omega (arith, enough)) in
            let (done, all) = drained rt a e in (rt, refl, e, done, all)
        drive_drains (suc steps) rt a enough =
            let before = offer rt (late rt) in
            let (same, a') = offer_keeps rt (late rt) a in
            let (next, runs, a'') = run_gid-Accounts config true before (pick before) a' in
            let less =
              reached (λ rt'. work rt' ≤ steps) runs
                (progress steps before a' (omega (arith, enough, ap (total worker_work) same))) in
            let (rt', drives, empty, done, all) = drive_drains steps next a'' less in
            (rt', rw (runs, drive) drives, empty, done, all)

    -- A runtime whose limits are those that `validate` admits, after any run: once it is closed, its
    -- runners need at most as many steps as `work` counts, in whatever order they are picked and
    -- whatever calls still come in, until the loop in `shutdown` ends; nothing panics, no runner is left,
    -- and each call that was accepted was completed.
    pub run_drains :
        IsUsable config
        → (late : Runtime Cmd → List (ℤ × ℕ × Cmd)) (pick : Runtime Cmd → ℤ)
        → ((rt : Runtime Cmd)
            → (rt.directory ≡ []) ⊎ ((w : Worker Cmd) × (get (pick rt) rt.directory ≡ some w)))
        → (actions : List (Action Cmd))
        → (rt : Runtime Cmd) × (run config (start config) actions ≡ some rt)
          × (rt' : Runtime Cmd) × (drive late pick (work rt) (start_draining rt) ≡ some rt')
          × (rt'.directory ≡ [])
          × (is_drained rt' ≡ true)
          × (rt'.stats.completed ≡ rt'.stats.accepted)
    unfolding start_draining
    run_drains usable late pick picks actions =
        let (rt, runs, closed, a) = run-Accounts config usable actions in
        let (rt', drives, empty, done, all) =
          drive_drains usable late pick picks (work rt) (start_draining rt)
            (start_draining-Accounts config closed rt a usable) (omega arith) in
        (rt, runs, rt', drives, empty, done, all)
