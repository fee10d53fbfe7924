-- ===== src/Logic/Runtime/Mailbox/Order.antt =====
-- The order in which the calls of a player are answered.
use xkk.Common.{
  ℕ, ◌≡◌, refl, ap, sym, ◌∙◌, inl, inr, Bool, true, false, ◌&&◌, Option, none, some, List, [], ◌∷◌,
  ◌++◌, append-nil, append_assoc, arith, if◌then◌else◌, unwrap_or, Bool-cases, Result, ok, err,
  is_ok,
}
use xkk.Common.Int.{ℤ, eqb_ℤ, eqb_ℤ_iff}
use xkk.Common.Keys.{get, insert, remove, get-insert, get-remove, int_key}
use xkk.Logic.Runtime.{LogicConfig, RejectReason}
use xkk.Logic.Runtime.Admission.{Admission, acquire}
use xkk.Logic.Runtime.Mailbox.{
  Envelope, Phase, running, answered, releasing, Worker, Runtime, new_worker, push, is_full, accept,
  enqueue, dequeued, take_next, answer, complete_and_take_next, drop_permit, retire_or_take_next,
  run_worker, run_gid, start_draining,
}
use xkk.Logic.Runtime.Mailbox.Branches.{
  enqueue_full, enqueue_refused, After, After-map, reached, enqueue_accepted, run_gid-none,
  run_gid-some,
}
use xkk.Logic.Runtime.Mailbox.Runs.{Action, submit, advance, drain, start, step, run, run-Accounts}
use xkk.Logic.Runtime.Mailbox.Invariant.{IsUsable}

module _ {Cmd : Type 0} where
  -- The call that a runner has taken and not answered.
  abbrev pub current : Phase Cmd → List (Envelope Cmd)
  current (running e) = e ∷ []
  current (releasing retained (some e)) = e ∷ []
  current _ = []

  -- The calls of a player that were accepted and not answered, the next one first.
  abbrev pub waiting : Option (Worker Cmd) → List (Envelope Cmd)
  waiting none = []
  waiting (some w) = current w.phase ++ w.queue

  abbrev pub backlog : Runtime Cmd → ℤ → List (Envelope Cmd)
  backlog rt gid = waiting (get gid rt.directory)

  -- The call that the next step of a runner answers.
  abbrev pub answering : Option (Worker Cmd) → List (Envelope Cmd)
  answering none = []
  answering (some w) = elim w.phase [ running e ↦ e ∷ [] | _ ↦ [] ]

  abbrev pub accepts : LogicConfig → Runtime Cmd → ℤ → Action Cmd → List (Envelope Cmd)
  accepts config rt gid (submit g retained command) =
      if eqb_ℤ g gid && is_ok (enqueue config rt g retained command).1
      then record { command = command; retained_kib = retained } ∷ []
      else []
  accepts config rt gid (advance g) = []
  accepts config rt gid drain = []

  abbrev pub answers : Runtime Cmd → ℤ → Action Cmd → List (Envelope Cmd)
  answers rt gid (submit g retained command) = []
  answers rt gid (advance g) = if eqb_ℤ g gid then answering (get gid rt.directory) else []
  answers rt gid drain = []

  -- The calls of a player that a run accepts, and those that it answers, in order.
  unfoldable pub accepted_calls :
      LogicConfig → Runtime Cmd → ℤ → List (Action Cmd) → List (Envelope Cmd)
  unfolding step
  accepted_calls config rt gid [] = []
  accepted_calls config rt gid (action ∷ actions) = elim (step config rt action) [
    | none ↦ []
    | some rt' ↦ accepts config rt gid action ++ accepted_calls config rt' gid actions
  ]

  unfoldable pub answered_calls :
      LogicConfig → Runtime Cmd → ℤ → List (Action Cmd) → List (Envelope Cmd)
  unfolding step
  answered_calls config rt gid [] = []
  answered_calls config rt gid (action ∷ actions) = elim (step config rt action) [
    | none ↦ []
    | some rt' ↦ answers rt gid action ++ answered_calls config rt' gid actions
  ]

  module _ (rt : Runtime Cmd) (g gid : ℤ) where
    get_other :
        (v : Worker Cmd)
        → eqb_ℤ g gid ≡ false
        → get gid (insert g v rt.directory) ≡ get gid rt.directory
    get_other v h = ground (arith, get-insert g gid v rt.directory)

    get_same : (v : Worker Cmd) → eqb_ℤ g gid ≡ true → get gid (insert g v rt.directory) ≡ some v
    get_same v h = ground (arith, get-insert g gid v rt.directory)

    removed_other : eqb_ℤ g gid ≡ false → get gid (remove g rt.directory) ≡ get gid rt.directory
    removed_other h = ground (arith, get-remove g gid rt.directory)

    removed_same : eqb_ℤ g gid ≡ true → get gid (remove g rt.directory) ≡ none
    removed_same h = ground (arith, get-remove g gid rt.directory)

    -- A step of another player's runner.
    run_other :
        (queue : List (Envelope Cmd)) (n k : ℕ) (phase : Phase Cmd)
        → eqb_ℤ g gid ≡ false
        → After
            (run_worker rt g
              (record { queue = queue; inflight_calls = n; inflight_kib = k; phase = phase })
              phase)
            (λ rt'. get gid rt'.directory ≡ get gid rt.directory)
    unfolding run_worker take_next answer complete_and_take_next drop_permit retire_or_take_next
        dequeued
    run_other [] n k Phase.starting h = tt
    run_other (x ∷ xs) n k Phase.starting h = get_other _ h
    run_other queue n k (running e) h = get_other _ h
    run_other [] n k (answered e) h = get_other _ h
    run_other (x ∷ xs) n k (answered e) h = get_other _ h
    run_other queue n k (releasing r none) h = get_other _ h
    run_other queue n k (releasing r (some e)) h = get_other _ h
    run_other [] n k Phase.retiring h = removed_other h
    run_other (x ∷ xs) n k Phase.retiring h = get_other _ h

    run_own :
        (queue : List (Envelope Cmd)) (n k : ℕ) (phase : Phase Cmd)
        → eqb_ℤ g gid ≡ true
        → let v : Worker Cmd = record {
          queue = queue;
          inflight_calls = n;
          inflight_kib = k;
          phase = phase;
        } in
          After
            (run_worker rt g v phase)
            (λ rt'. waiting (some v) ≡ answering (some v) ++ backlog rt' gid)
    unfolding run_worker take_next answer complete_and_take_next drop_permit retire_or_take_next
        dequeued
    run_own [] n k Phase.starting h = tt
    run_own (x ∷ xs) n k Phase.starting h = rw (get_same _ h) refl
    run_own queue n k (running e) h = rw (get_same _ h) refl
    run_own [] n k (answered e) h = rw (get_same _ h) refl
    run_own (x ∷ xs) n k (answered e) h = rw (get_same _ h) refl
    run_own queue n k (releasing r none) h = rw (get_same _ h) refl
    run_own queue n k (releasing r (some e)) h = rw (get_same _ h) refl
    run_own [] n k Phase.retiring h = rw (removed_same h) refl
    run_own (x ∷ xs) n k Phase.retiring h = rw (get_same _ h) refl

  no_more : (b : Bool) (xs ys : List (Envelope Cmd)) → xs ++ (if b && false then ys else []) ≡ xs
  no_more true xs ys = append-nil xs
  no_more false xs ys = append-nil xs

  waiting-push :
      (slot : Option (Worker Cmd)) (e : Envelope Cmd)
      → waiting slot ++ (e ∷ []) ≡ waiting (some (push (unwrap_or slot new_worker) e))
  waiting-push none e = refl
  waiting-push (some w) e = append_assoc (current w.phase) w.queue (e ∷ [])

  accept_order :
      (rt : Runtime Cmd) (admission : Admission) (g gid : ℤ) (spawn_runner : Bool)
      (e : Envelope Cmd)
      → backlog rt gid ++ (if eqb_ℤ g gid && true then e ∷ [] else [])
        ≡ backlog
            (accept rt admission g (unwrap_or (get g rt.directory) new_worker) spawn_runner e)
            gid
  unfolding accept
  accept_order rt admission g gid spawn_runner e = elim (Bool-cases (eqb_ℤ g gid)) [
    | inl h ↦
        rw (h, get_same rt g gid _ h)
          (rw (← (eqb_ℤ_iff g gid).0 h) (waiting-push (get g rt.directory) e))
    | inr h ↦ rw (h, get_other rt g gid _ h) (append-nil _)
  ]

  -- A call that comes in.
  submit_order :
      (config : LogicConfig) (rt : Runtime Cmd) (g gid : ℤ) (retained : ℕ) (command : Cmd)
      → backlog rt gid ++ accepts config rt gid (submit g retained command)
        ≡ backlog (enqueue config rt g retained command).0 gid
  submit_order config rt g gid retained command =
      elim (Bool-cases (is_full config (unwrap_or (get g rt.directory) new_worker) retained)) [
        | inl full ↦ rw (enqueue_full config rt g retained command full) (no_more (eqb_ℤ g gid) _ _)
        | inr room ↦ permit (acquire rt.admission retained) room refl
      ]
    where
      permit :
          (p : Admission × Result (Unit {0}) RejectReason)
          → is_full config (unwrap_or (get g rt.directory) new_worker) retained ≡ false
          → acquire rt.admission retained ≡ p
          → backlog rt gid ++ accepts config rt gid (submit g retained command)
            ≡ backlog (enqueue config rt g retained command).0 gid
      permit (admission, err reason) room e =
          rw (enqueue_refused config rt g retained command room admission reason e)
            (no_more (eqb_ℤ g gid) _ _)
      permit (admission, ok _) room e =
          rw (enqueue_accepted config rt g retained command room admission e)
            (accept_order rt admission g gid _ _)

  -- A step of a runner.
  runner_order :
      (rt : Runtime Cmd) (g gid : ℤ) (slot : Option (Worker Cmd))
      → get g rt.directory ≡ slot
      → After (run_gid rt g) (λ rt'. backlog rt gid ≡ answers rt gid (advance g) ++ backlog rt' gid)
  runner_order rt g gid none e = rw (run_gid-none rt g e) elim (Bool-cases (eqb_ℤ g gid)) [
    | inl h ↦
        let e' : get gid rt.directory ≡ none = rw (← (eqb_ℤ_iff g gid).0 h) e in rw (h, e') refl
    | inr h ↦ rw h refl
  ]
  runner_order rt g gid (some w) e = rw (run_gid-some rt g w e) elim (Bool-cases (eqb_ℤ g gid)) [
    | inl h ↦
        let e' : get gid rt.directory ≡ some w = rw (← (eqb_ℤ_iff g gid).0 h) e in
        After-map (run_worker rt g w w.phase)
          (λ x. waiting (some w) ≡ answering (some w) ++ backlog x gid)
          (λ x. backlog rt gid ≡ answers rt gid (advance g) ++ backlog x gid)
          (λ rt' q. rw (h, e') q)
          (run_own rt g gid w.queue w.inflight_calls w.inflight_kib w.phase h)
    | inr h ↦
        After-map (run_worker rt g w w.phase) (λ x. get gid x.directory ≡ get gid rt.directory)
          (λ x. backlog rt gid ≡ answers rt gid (advance g) ++ backlog x gid)
          (λ rt' q. rw (h, q) refl)
          (run_other rt g gid w.queue w.inflight_calls w.inflight_kib w.phase h)
  ]

  step_order :
      (config : LogicConfig) (rt : Runtime Cmd) (gid : ℤ) (action : Action Cmd)
      → After (step config rt action) (λ rt'.
        backlog rt gid ++ accepts config rt gid action ≡ answers rt gid action ++ backlog rt' gid)
  unfolding step start_draining
  step_order config rt gid (submit g retained command) =
      submit_order config rt g gid retained command
  step_order config rt gid (advance g) =
      After-map (run_gid rt g) (λ x. backlog rt gid ≡ answers rt gid (advance g) ++ backlog x gid)
        (λ x. backlog rt gid ++ [] ≡ answers rt gid (advance g) ++ backlog x gid)
        (λ rt' q. append-nil _ ∙ q) (runner_order rt g gid (get g rt.directory) refl)
  step_order config rt gid drain = append-nil _

  chain :
      (before accepted1 answered1 between accepted2 answered2 after : List (Envelope Cmd))
      → before ++ accepted1 ≡ answered1 ++ between
      → between ++ accepted2 ≡ answered2 ++ after
      → before ++ (accepted1 ++ accepted2) ≡ (answered1 ++ answered2) ++ after
  chain before accepted1 answered1 between accepted2 answered2 after e f =
      sym (append_assoc before accepted1 accepted2)
      ∙ ap (λ xs. xs ++ accepted2) e
      ∙ append_assoc answered1 between accepted2
      ∙ ap (λ xs. answered1 ++ xs) f
      ∙ sym (append_assoc answered1 answered2 after)

  run_order :
      (config : LogicConfig) (rt : Runtime Cmd) (gid : ℤ) (actions : List (Action Cmd))
      → After (run config rt actions) (λ rt'.
        backlog rt gid ++ accepted_calls config rt gid actions
        ≡ answered_calls config rt gid actions ++ backlog rt' gid)
  unfolding run accepted_calls answered_calls
  run_order config rt gid [] = append-nil _
  run_order config rt gid (action ∷ actions) =
      next (step config rt action) refl (λ rt1. run_order config rt1 gid actions)
    where
      next :
          (o : Option (Runtime Cmd))
          → step config rt action ≡ o
          → ((rt1 : Runtime Cmd)
              → After (run config rt1 actions) (λ x.
                backlog rt1 gid ++ accepted_calls config rt1 gid actions
                ≡ answered_calls config rt1 gid actions ++ backlog x gid))
          → After (run config rt (action ∷ actions)) (λ rt'.
            backlog rt gid ++ accepted_calls config rt gid (action ∷ actions)
            ≡ answered_calls config rt gid (action ∷ actions) ++ backlog rt' gid)
      next none e ih = rw (e, run) tt
      next (some rt1) e ih =
          let one : backlog rt gid ++ accepts config rt gid action
              ≡ answers rt gid action ++ backlog rt1 gid =
            reached
              (λ x.
                backlog rt gid ++ accepts config rt gid action
                ≡ answers rt gid action ++ backlog x gid)
              e (step_order config rt gid action) in
          rw (e, run)
            (After-map (run config rt1 actions)
              (λ x.
                backlog rt1 gid ++ accepted_calls config rt1 gid actions
                ≡ answered_calls config rt1 gid actions ++ backlog x gid)
              (λ x.
                backlog rt gid ++ accepted_calls config rt gid (action ∷ actions)
                ≡ answered_calls config rt gid (action ∷ actions) ++ backlog x gid)
              (λ rt' q.
                rw (e, accepted_calls)
                  (rw (e, answered_calls)
                    (chain (backlog rt gid) (accepts config rt gid action) (answers rt gid action)
                      (backlog rt1 gid) (accepted_calls config rt1 gid actions)
                      (answered_calls config rt1 gid actions) (backlog rt' gid) one q)))
              (ih rt1))

  -- In every run of a new runtime, whose limits are those that `validate` admits, the calls of a player
  -- that were accepted are those that were answered, in the same order, and then those that still wait:
  -- none is lost, none is answered twice, and none overtakes another; and the run does not panic.
  pub run_is_fifo :
      (config : LogicConfig)
      → IsUsable config
      → (actions : List (Action Cmd))
      → (rt : Runtime Cmd) × (run config (start config) actions ≡ some rt)
        × ((gid : ℤ)
            → accepted_calls config (start config) gid actions
              ≡ answered_calls config (start config) gid actions ++ backlog rt gid)
  unfolding get
  run_is_fifo config usable actions =
      let (rt, runs, closed, a) = run-Accounts config usable actions in
      (
        rt,
        runs,
        λ gid.
            reached
              (λ x.
                backlog (start config) gid ++ accepted_calls config (start config) gid actions
                ≡ answered_calls config (start config) gid actions ++ backlog x gid)
              runs (run_order config (start config) gid actions),
      )
