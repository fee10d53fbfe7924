-- ===== src/Logic/Runtime/Mailbox/Branches.antt =====
-- What a call that comes in does to a runtime on each branch.
use xkk.Common.{
  ℕ, ◌≡◌, refl, subst, Option, none, some, true, false, is_some, not, unwrap_or, ok, err,
}
use xkk.Common.Int.{ℤ}
use xkk.Common.Keys.{get, int_key}
use xkk.Logic.Runtime.{LogicConfig, RejectReason}
use xkk.Logic.Runtime.Admission.{Admission, acquire}
use xkk.Logic.Runtime.Mailbox.{
  Runtime, Worker, run_gid, run_worker, count_rejected, new_worker, is_full, accept, admit, enqueue,
}

module _ {Cmd : Type 0} (config : LogicConfig) (rt : Runtime Cmd) (gid : ℤ) (retained : ℕ)
    (command : Cmd) where
  pub enqueue_full :
      is_full config (unwrap_or (get gid rt.directory) new_worker) retained ≡ true
      → enqueue config rt gid retained command
        ≡ (record rt { stats = count_rejected rt.stats RejectReason.gid }, err RejectReason.gid)
  unfolding enqueue
  enqueue_full full = rw full refl

  module _ (room : is_full config (unwrap_or (get gid rt.directory) new_worker) retained ≡ false)
      (admission : Admission) where
    pub enqueue_refused :
        (reason : RejectReason)
        → acquire rt.admission retained ≡ (admission, err reason)
        → enqueue config rt gid retained command ≡ (
          record rt { admission = admission; stats = count_rejected rt.stats reason },
          err reason,
        )
    unfolding enqueue admit
    enqueue_refused reason e = rw room (rw e refl)

    pub enqueue_accepted :
        acquire rt.admission retained ≡ (admission, ok tt)
        → enqueue config rt gid retained command ≡ (
          accept rt admission gid
              (unwrap_or (get gid rt.directory) new_worker)
              (not (is_some (get gid rt.directory)))
              (record { command = command; retained_kib = retained }),
          ok tt,
        )
    unfolding enqueue admit
    enqueue_accepted e = rw room (rw e refl)

module _ {Cmd : Type 0} (rt : Runtime Cmd) (gid : ℤ) where
  pub run_gid-none : get gid rt.directory ≡ none → run_gid rt gid ≡ some rt
  unfolding run_gid
  run_gid-none e = rw (e, run_gid) refl

  pub run_gid-some :
      (w : Worker Cmd)
      → get gid rt.directory ≡ some w
      → run_gid rt gid ≡ run_worker rt gid w w.phase
  unfolding run_gid
  run_gid-some w e = rw (e, run_gid) refl

module _ {Cmd : Type 0} where
  -- What holds of a runtime, unless the code panicked.
  abbrev pub After : Option (Runtime Cmd) → (Runtime Cmd → Type 0) → Type 0
  After none P = Unit {0}
  After (some rt) P = P rt

  pub After-map :
      (o : Option (Runtime Cmd)) (P Q : Runtime Cmd → Type 0)
      → ((rt : Runtime Cmd) → P rt → Q rt)
      → After o P
      → After o Q
  After-map none P Q f p = tt
  After-map (some rt) P Q f p = f rt p

  pub reached :
      {o : Option (Runtime Cmd)} (P : Runtime Cmd → Type 0) {rt : Runtime Cmd}
      → o ≡ some rt
      → After o P
      → P rt
  reached P e p = subst (λ o. After o P) e p
