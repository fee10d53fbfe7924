-- ===== src/Logic/Runtime/Mailbox/Steps.antt =====
-- Every step of a runtime keeps its accounts, and none of them panics.
use xkk.Common.{
  ℕ, suc, ◌≡◌, refl, inl, inr, Bool, true, false, Option, none, some, List, [], ◌∷◌, arith, leb,
  Option-cases,
}
use xkk.Common.Int.{ℤ, eqb_ℤ_iff}
use xkk.Common.Keys.{get, get-remove, int_key}
use xkk.Common.Keys.Totals.{remove-Distinct, total-without}
use xkk.Logic.Runtime.{LogicConfig, admission_closed}
use xkk.Logic.Runtime.Admission.{is_closed, release, close}
use xkk.Logic.Runtime.Mailbox.{
  Envelope, Phase, running, answered, releasing, Worker, Runtime, put, dequeued, take_next, answer,
  complete_and_take_next, drop_permit, retire_or_take_next, run_worker, run_gid, start_draining,
}
use xkk.Logic.Runtime.Mailbox.Invariant.{
  IsUsable, kib_of, permits, permits_kib, queue_length, one, pending, unanswered, owed, owed_kib,
  Accounts, move-Accounts, held, has_call,
}

module _ {Cmd : Type 0} (config : LogicConfig) (closed : Bool) (rt : Runtime Cmd) (gid : ℤ)
    (a : Accounts config closed rt) (queue : List (Envelope Cmd))
    (inflight_calls inflight_kib : ℕ) where
  abbrev worker : List (Envelope Cmd) → Phase Cmd → Worker Cmd
  worker q phase = record {
    queue = q;
    inflight_calls = inflight_calls;
    inflight_kib = inflight_kib;
    phase = phase;
  }

  -- A worker that takes the next call from its mailbox.
  takes :
      (phase : Phase Cmd) (next : Phase Cmd) (x : Envelope Cmd) (xs : List (Envelope Cmd))
      → get gid rt.directory ≡ some (worker (x ∷ xs) phase)
      → held phase ≡ none
      → held next ≡ some x
      → owed next ≡ owed phase
      → owed_kib next ≡ owed_kib phase
      → unanswered next ≡ suc (unanswered phase)
      → has_call next xs ≡ true
      → Accounts config closed (put (dequeued rt) gid (worker xs next))
  unfolding dequeued kib_of
  takes phase next x xs e h h' o k u r =
      let f = a.fine gid _ e in
      let some_queued = total-without queue_length gid _ rt.directory a.distinct e in
      move-Accounts config closed rt gid (worker (x ∷ xs) phase) (worker xs next) rt.admission _ a e
        (record {
          calls = rw h' (let c = rw h at f.calls in omega (arith, c));
          kib = rw h' (let c = rw h at f.kib in omega (arith, c));
          few = f.few;
          light = f.light;
          ready = r;
        })
        (omega (arith, o)) (omega (arith, k)) (refl, refl) (omega (arith, o), omega (arith, k))
        (omega (arith, a.queued, some_queued)) (refl, refl) (omega (arith, u))

  answers :
      (x : Envelope Cmd)
      → get gid rt.directory ≡ some (worker queue (running x))
      → Accounts config closed (answer rt gid (worker queue (running x)) x)
  unfolding answer
  answers x e =
      let f = a.fine gid _ e in
      move-Accounts config closed rt gid (worker queue (running x)) (worker queue (answered x))
        rt.admission _ a e
        (record { calls = f.calls; kib = f.kib; few = f.few; light = f.light; ready = refl }) refl
        refl (refl, refl) (omega arith, omega arith) refl (refl, refl) (omega arith)

  gives_back :
      (x : Envelope Cmd)
      → get gid rt.directory ≡ some (worker queue (answered x))
      → Accounts config closed
          (complete_and_take_next rt gid (worker queue (answered x)) x.retained_kib queue)
  unfolding complete_and_take_next dequeued kib_of
  gives_back x e = given queue e
    where
      given :
          (q : List (Envelope Cmd))
          → get gid rt.directory ≡ some (worker q (answered x))
          → Accounts config closed
              (complete_and_take_next rt gid (worker q (answered x)) x.retained_kib q)
      given [] e =
          let f = a.fine gid _ e in
          move-Accounts config closed rt gid (worker [] (answered x)) _ rt.admission _ a e
            (record {
              calls = omega (arith, f.calls);
              kib = omega (arith, f.kib);
              few = omega (arith, f.few);
              light = omega (arith, f.light);
              ready = refl;
            })
            (omega (arith, f.calls)) (omega (arith, f.kib)) (refl, refl)
            (omega (arith, f.calls), omega (arith, f.kib)) refl (refl, refl) refl
      given (y ∷ ys) e =
          let f = a.fine gid _ e in
          let some_queued = total-without queue_length gid _ rt.directory a.distinct e in
          move-Accounts config closed rt gid (worker (y ∷ ys) (answered x)) _ rt.admission _ a e
            (record {
              calls = omega (arith, f.calls);
              kib = omega (arith, f.kib);
              few = omega (arith, f.few);
              light = omega (arith, f.light);
              ready = refl;
            })
            (omega (arith, f.calls)) (omega (arith, f.kib)) (refl, refl)
            (omega (arith, f.calls), omega (arith, f.kib)) (omega (arith, a.queued, some_queued))
            (refl, refl) (omega arith)

  drops :
      (retained : ℕ) (next : Option (Envelope Cmd))
      → get gid rt.directory ≡ some (worker queue (releasing retained next))
      → Accounts config closed
          (drop_permit rt gid (worker queue (releasing retained next)) retained next)
  unfolding drop_permit release
  drops retained none e =
      let f = a.fine gid _ e in
      let out = total-without permits gid _ rt.directory a.distinct e in
      let out_kib = total-without permits_kib gid _ rt.directory a.distinct e in
      move-Accounts config closed rt gid (worker queue (releasing retained none))
        (worker queue Phase.retiring) _ rt.stats a e
        (record { calls = f.calls; kib = f.kib; few = f.few; light = f.light; ready = refl })
        (omega (arith, out, a.calls)) (omega (arith, out_kib, a.kib)) (refl, refl)
        (omega arith, omega arith) refl (refl, refl) refl
  drops retained (some x) e =
      let f = a.fine gid _ e in
      let out = total-without permits gid _ rt.directory a.distinct e in
      let out_kib = total-without permits_kib gid _ rt.directory a.distinct e in
      move-Accounts config closed rt gid (worker queue (releasing retained (some x)))
        (worker queue (running x)) _ rt.stats a e
        (record { calls = f.calls; kib = f.kib; few = f.few; light = f.light; ready = refl })
        (omega (arith, out, a.calls)) (omega (arith, out_kib, a.kib)) (refl, refl)
        (omega arith, omega arith) refl (refl, refl) refl

  retires :
      get gid rt.directory ≡ some (worker [] Phase.retiring)
      → Accounts config closed (retire_or_take_next rt gid (worker [] Phase.retiring) [])
  unfolding retire_or_take_next kib_of
  retires e =
      let f = a.fine gid _ e in
      record {
        distinct = remove-Distinct gid rt.directory a.distinct;
        fine = λ k v g. a.fine k v (ground (arith, get-remove gid k rt.directory, eqb_ℤ_iff gid k));
        calls =
            omega (arith, a.calls, total-without permits gid _ rt.directory a.distinct e, f.calls);
        kib =
            omega (arith, a.kib, total-without permits_kib gid _ rt.directory a.distinct e, f.kib);
        few = omega (arith, a.few, total-without permits gid _ rt.directory a.distinct e);
        light = omega (arith, a.light, total-without permits_kib gid _ rt.directory a.distinct e);
        max_calls = a.max_calls;
        max_kib = a.max_kib;
        queued =
            omega (arith, a.queued, total-without queue_length gid _ rt.directory a.distinct e);
        active = omega (arith, a.active, total-without one gid _ rt.directory a.distinct e);
        accepted = omega (arith, a.accepted, total-without pending gid _ rt.directory a.distinct e);
      }

module _ {Cmd : Type 0} (config : LogicConfig) (closed : Bool) (rt : Runtime Cmd) (gid : ℤ)
    (a : Accounts config closed rt) where
  run_worker-Accounts :
      (queue : List (Envelope Cmd)) (n k : ℕ) (phase : Phase Cmd)
      → get gid rt.directory ≡ some (worker config closed rt gid a queue n k queue phase)
      → (rt' : Runtime Cmd) × (run_worker rt gid
            (worker config closed rt gid a queue n k queue phase)
            phase
          ≡ some rt')
        × Accounts config closed rt'
  unfolding run_worker take_next retire_or_take_next
  run_worker-Accounts [] n k Phase.starting e = let r = (a.fine gid _ e).ready in absurd (cc)
  run_worker-Accounts (x ∷ xs) n k Phase.starting e = (
    _,
    refl,
    takes config closed rt gid a (x ∷ xs) n k Phase.starting (running x) x xs e refl refl refl refl
        refl refl,
  )
  run_worker-Accounts queue n k (running x) e =
      (_, refl, answers config closed rt gid a queue n k x e)
  run_worker-Accounts queue n k (answered x) e =
      (_, refl, gives_back config closed rt gid a queue n k x e)
  run_worker-Accounts queue n k (releasing retained next) e =
      (_, refl, drops config closed rt gid a queue n k retained next e)
  run_worker-Accounts [] n k Phase.retiring e = (_, refl, retires config closed rt gid a [] n k e)
  run_worker-Accounts (x ∷ xs) n k Phase.retiring e = (
    _,
    refl,
    takes config closed rt gid a (x ∷ xs) n k Phase.retiring (running x) x xs e refl refl refl refl
        refl refl,
  )

  pub run_gid-Accounts :
      (rt' : Runtime Cmd) × (run_gid rt gid ≡ some rt') × Accounts config closed rt'
  unfolding run_gid
  run_gid-Accounts = elim (Option-cases (get gid rt.directory)) [
    | inl e ↦ (rt, rw (e, run_gid) refl, a)
    | inr (w, e) ↦
        let (rt', runs, a') =
          run_worker-Accounts w.queue w.inflight_calls w.inflight_kib w.phase e in
        (rt', rw (e, run_gid) runs, a')
  ]

pub start_draining-Accounts :
    {Cmd : Type 0} (config : LogicConfig) (closed : Bool) (rt : Runtime Cmd)
    → Accounts config closed rt
    → IsUsable config
    → Accounts config true (start_draining rt)
unfolding start_draining close is_closed
start_draining-Accounts config true rt a usable =
    let shut : leb admission_closed rt.admission.calls ≡ true = ground (arith, a.calls) in rw shut a
start_draining-Accounts config false rt a usable =
    let still_open : leb admission_closed rt.admission.calls ≡ false =
      ground (arith, a.calls, a.few, usable.countable) in
    rw still_open (record {
      distinct = a.distinct;
      fine = a.fine;
      calls = omega (arith, a.calls);
      kib = a.kib;
      few = a.few;
      light = a.light;
      max_calls = a.max_calls;
      max_kib = a.max_kib;
      queued = a.queued;
      active = a.active;
      accepted = a.accepted;
    })
