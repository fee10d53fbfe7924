-- ===== src/Logic/Runtime/Mailbox/Enqueue.antt =====
-- A call that comes in keeps the accounts, whether it is accepted or refused.
use xkk.Common.{
  ℕ, ◌+◌, ◌≤◌, ◌<◌, ◌%◌, ◌^◌, ◌≡◌, refl, ◌⊎◌, inl, inr, Bool, true, false, Option, none, some, List,
  [], ◌∷◌, ◌++◌, arith, if◌then◌else◌, leb, lt→ltb, length, length-append, is_some, not, unwrap_or,
  Bool-cases, ◌∙◌, ok, err,
}
use xkk.Common.Int.{ℤ}
use xkk.Common.Keys.{get, insert, int_key}
use xkk.Common.Keys.Totals.{total, total-insert, insert-Distinct, weight?}
use xkk.Logic.Runtime.{LogicConfig, RejectReason, admission_closed, admission_count_mask}
use xkk.Logic.Runtime.Admission.{
  Admission, is_closed, acquire_call, acquire_kib, checked_add_u64, acquire,
}
use xkk.Logic.Runtime.Mailbox.{
  Envelope, Phase, running, answered, releasing, Worker, Stats, Runtime, count_rejected, new_worker,
  push, is_full, accept, enqueue,
}
use xkk.Logic.Runtime.Mailbox.Branches.{enqueue_full, enqueue_refused, enqueue_accepted}
use xkk.Logic.Runtime.Mailbox.Invariant.{
  IsUsable, kib_of, kib_of-append, permits, permits_kib, queue_length, one, pending, IsFine,
  Accounts, insert-IsFine, held, size, weigh, has_call,
}

module _ (a : Admission) (retained : ℕ) where
  pub refuse_draining :
      leb admission_closed a.calls ≡ true → acquire a retained ≡ (a, err RejectReason.draining)
  unfolding acquire acquire_call is_closed
  refuse_draining p = ground arith

  module _ (p : leb admission_closed a.calls ≡ false) where
    refuse_calls : leb a.max_calls a.calls ≡ true → acquire a retained ≡ (a, err RejectReason.calls)
    unfolding acquire acquire_call is_closed
    refuse_calls q = ground arith

    module _ (q : leb a.max_calls a.calls ≡ false)
        (counted : (a.calls + 1) % 2 ^ 64 ≡ a.calls + 1) where
      abbrev taken : Admission
      taken = record a { calls = a.calls + 1 }

      called : acquire a retained ≡ acquire_kib taken retained
      unfolding acquire acquire_call is_closed
      called = ground (arith, counted)

      grant_both :
          a.kib + retained < 2 ^ 64
          → leb (a.kib + retained) a.max_kib ≡ true
          → acquire a retained ≡ (record a { calls = a.calls + 1; kib = a.kib + retained }, ok tt)
      unfolding acquire_kib checked_add_u64
      grant_both r s =
          let fits = lt→ltb (a.kib + retained) (2 ^ 64) r in
          called ∙ rw (fits, acquire_kib) (rw s refl)

      refuse_kib :
          leb (a.kib + retained) a.max_kib ≡ false → acquire a retained ≡ (a, err RejectReason.kib)
      unfolding acquire_kib checked_add_u64
      refuse_kib s = called ∙ ground arith

-- A refused permit leaves the words as they were, and a granted one is counted within the limits.
acquire_counts :
    (a : Admission) (n : ℕ) (closed : Bool) (retained : ℕ)
    → a.calls ≡ n + (if closed then admission_closed else 0)
    → n ≤ a.max_calls
    → a.kib ≤ a.max_kib
    → a.max_calls ≤ admission_count_mask
    → a.max_kib < 2 ^ 64
    → ((reason : RejectReason) × (acquire a retained ≡ (a, err reason)))
      ⊎ ((acquire a retained ≡ (record a { calls = a.calls + 1; kib = a.kib + retained }, ok tt))
          × (n + 1 ≤ a.max_calls)
          × (a.kib + retained ≤ a.max_kib))
acquire_counts a n closed retained e f g h k = elim (Bool-cases (leb admission_closed a.calls)) [
  | inl p ↦ inl (RejectReason.draining, refuse_draining a retained p)
  | inr p ↦ elim (Bool-cases (leb a.max_calls a.calls)) [
    | inl q ↦ inl (RejectReason.calls, refuse_calls a retained p q)
    | inr q ↦
        let counted : (a.calls + 1) % 2 ^ 64 ≡ a.calls + 1 = ground arith in
        elim (Bool-cases (leb (a.kib + retained) a.max_kib)) [
          | inl s ↦
              inr (grant_both a retained p q counted (ground arith) s, ground arith, ground arith)
          | inr s ↦ inl (RejectReason.kib, refuse_kib a retained p q counted s)
        ]
  ]
]

module _ {Cmd : Type 0} (config : LogicConfig) (closed : Bool) (rt : Runtime Cmd)
    (a : Accounts config closed rt) where
  counted-Accounts :
      (stats : Stats)
      → (stats.queued ≡ rt.stats.queued) × (stats.active_gids ≡ rt.stats.active_gids)
      → (stats.accepted ≡ rt.stats.accepted) × (stats.completed ≡ rt.stats.completed)
      → Accounts config closed (record rt { stats = stats })
  counted-Accounts stats (q, ac) (acc, c) = record {
    distinct = a.distinct;
    fine = a.fine;
    calls = a.calls;
    kib = a.kib;
    few = a.few;
    light = a.light;
    max_calls = a.max_calls;
    max_kib = a.max_kib;
    queued = omega (arith, q, a.queued);
    active = omega (arith, ac, a.active);
    accepted = omega (arith, acc, c, a.accepted);
  }

  rejected-Accounts :
      (reason : RejectReason)
      → Accounts config closed (record rt { stats = count_rejected rt.stats reason })
  unfolding count_rejected
  rejected-Accounts RejectReason.calls = counted-Accounts _ (refl, refl) (refl, refl)
  rejected-Accounts RejectReason.kib = counted-Accounts _ (refl, refl) (refl, refl)
  rejected-Accounts RejectReason.gid = counted-Accounts _ (refl, refl) (refl, refl)
  rejected-Accounts RejectReason.draining = counted-Accounts _ (refl, refl) (refl, refl)

has_call-append :
    {Cmd : Type 0} (phase : Phase Cmd) (q : List (Envelope Cmd)) (e : Envelope Cmd)
    → has_call phase (q ++ (e ∷ [])) ≡ true
has_call-append Phase.starting [] e = refl
has_call-append Phase.starting (x ∷ q) e = refl
has_call-append Phase.retiring q e = refl
has_call-append (running x) q e = refl
has_call-append (answered x) q e = refl
has_call-append (releasing k n) q e = refl

-- The counters of a mailbox, without the call that a new runner has to have.
record IsCounted {Cmd : Type 0} (config : LogicConfig) (w : Worker Cmd) : Type 0 where
  pub calls : w.inflight_calls ≡ length w.queue + size (held w.phase)
  pub kib : w.inflight_kib ≡ kib_of w.queue + weigh (held w.phase)
  pub few : w.inflight_calls ≤ config.max_calls_per_gid
  pub light : w.inflight_kib ≤ config.max_kib_per_gid

push-IsFine :
    {Cmd : Type 0} (config : LogicConfig) (w : Worker Cmd) (e : Envelope Cmd)
    → IsCounted config w
    → is_full config w e.retained_kib ≡ false
    → IsFine config (push w e)
unfolding is_full kib_of
push-IsFine config w e f room = record {
  calls = ground (arith, f.calls, length-append w.queue (e ∷ []));
  kib = ground (arith, f.kib, kib_of-append w.queue (e ∷ []));
  few = ground (arith, f.few);
  light = ground (arith, f.light);
  ready = has_call-append w.phase w.queue e;
}

module _ {Cmd : Type 0} (config : LogicConfig) (closed : Bool) (rt : Runtime Cmd) (gid : ℤ)
    (a : Accounts config closed rt) where
  total-accept :
      (f : Worker Cmd → ℕ) (old : Option (Worker Cmd)) (v : Worker Cmd)
      → get gid rt.directory ≡ old
      → total f (insert gid v rt.directory) + weight? f old ≡ total f rt.directory + f v
  total-accept f old v found = rw (← found) (total-insert f gid v rt.directory)

  abbrev granted : ℕ → Admission
  granted retained = record (rt.admission) {
    calls = rt.admission.calls + 1;
    kib = rt.admission.kib + retained;
  }

  accept-Accounts :
      (old : Option (Worker Cmd)) (e : Envelope Cmd)
      → get gid rt.directory ≡ old
      → IsFine config (push (unwrap_or old new_worker) e)
      → total permits rt.directory + 1 ≤ config.max_inflight_calls
      → rt.admission.kib + e.retained_kib ≤ config.max_inflight_kib
      → Accounts config closed
          (accept rt (granted e.retained_kib) gid (unwrap_or old new_worker) (not (is_some old)) e)
  unfolding accept
  accept-Accounts none e found f few light =
      let v = push new_worker e in
      record {
        distinct = insert-Distinct gid _ rt.directory a.distinct;
        fine = insert-IsFine config closed rt gid _ a f;
        calls = omega (arith, a.calls, total-accept permits none v found);
        kib = omega (arith, a.kib, total-accept permits_kib none v found);
        few = omega (arith, few, total-accept permits none v found);
        light = omega (arith, light, a.kib, total-accept permits_kib none v found);
        max_calls = a.max_calls;
        max_kib = a.max_kib;
        queued = omega (arith, a.queued, total-accept queue_length none v found);
        active = omega (arith, a.active, total-accept one none v found);
        accepted = omega (arith, a.accepted, total-accept pending none v found);
      }
  accept-Accounts (some w) e found f few light =
      let v = push w e in
      let longer = length-append w.queue (e ∷ []) in
      record {
        distinct = insert-Distinct gid _ rt.directory a.distinct;
        fine = insert-IsFine config closed rt gid _ a f;
        calls = omega (arith, a.calls, total-accept permits (some w) v found);
        kib = omega (arith, a.kib, total-accept permits_kib (some w) v found);
        few = omega (arith, few, total-accept permits (some w) v found);
        light = omega (arith, light, a.kib, total-accept permits_kib (some w) v found);
        max_calls = a.max_calls;
        max_kib = a.max_kib;
        queued = ground (arith, a.queued, longer, total-accept queue_length (some w) v found);
        active = omega (arith, a.active, total-accept one (some w) v found);
        accepted = ground (arith, a.accepted, longer, total-accept pending (some w) v found);
      }

  counted :
      (old : Option (Worker Cmd))
      → get gid rt.directory ≡ old
      → IsCounted config (unwrap_or old new_worker)
  unfolding kib_of
  counted none found = record { calls = refl; kib = refl; few = omega arith; light = omega arith }
  counted (some w) found =
      let f = a.fine gid w found in
      record { calls = f.calls; kib = f.kib; few = f.few; light = f.light }

  pub enqueue-Accounts :
      IsUsable config
      → (retained : ℕ) (command : Cmd)
      → Accounts config closed (enqueue config rt gid retained command).0
  enqueue-Accounts usable retained command =
      let w = unwrap_or (get gid rt.directory) new_worker in
      let e : Envelope Cmd = record { command = command; retained_kib = retained } in
      elim (Bool-cases (is_full config w retained)) [
        | inl full ↦
            rw (enqueue_full config rt gid retained command full)
              (rejected-Accounts config closed rt a RejectReason.gid)
        | inr room ↦
            elim (acquire_counts rt.admission (total permits rt.directory) closed retained a.calls
              (omega (arith, a.few, a.max_calls)) (omega (arith, a.light, a.kib, a.max_kib))
              (omega (arith, usable.countable, a.max_calls))
              (omega (arith, usable.weighable, a.max_kib))) [
                | inl (reason, refused) ↦
                    rw (enqueue_refused config rt gid retained command room _ reason refused)
                      (rejected-Accounts config closed rt a reason)
                | inr (g, few, light) ↦
                    rw (enqueue_accepted config rt gid retained command room _ g) (
                      accept-Accounts (get gid rt.directory) e refl
                        (push-IsFine config w e (counted (get gid rt.directory) refl) room)
                        (omega (arith, few, a.max_calls)) (omega (arith, light, a.max_kib)))
              ]
      ]
