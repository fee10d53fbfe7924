-- ===== src/Logic/Runtime/Mailbox/Invariant.antt =====
-- The accounts of a runtime: what each counter counts, whatever the calls and the order of the runners.
use xkk.Common.{
  ℕ, ◌+◌, ◌≤◌, ◌<◌, ◌^◌, ◌≡◌, inl, inr, Bool, true, false, Option, none, some, List, [], ◌∷◌, ◌++◌,
  arith, if◌then◌else◌, length, Bool-cases,
}
use xkk.Common.Int.{ℤ, eqb_ℤ}
use xkk.Common.Keys.{get, insert, get-insert, int_key}
use xkk.Common.Keys.Totals.{Distinct, total, insert-Distinct, total-replace}
use xkk.Logic.Runtime.{LogicConfig, admission_closed, admission_count_mask}
use xkk.Logic.Runtime.Admission.{Admission}
use xkk.Logic.Runtime.Mailbox.{
  Envelope, Phase, running, answered, releasing, Worker, Stats, Runtime,
}

-- The limits that `validate` asserts, and those of the words.
pub record IsUsable (config : LogicConfig) : Type 0 where
  pub countable : config.max_inflight_calls ≤ admission_count_mask
  pub weighable : config.max_inflight_kib < 2 ^ 64

module _ {Cmd : Type 0} where
  unfoldable pub kib_of : List (Envelope Cmd) → ℕ
  kib_of [] = 0
  kib_of (e ∷ es) = e.retained_kib + kib_of es

  pub kib_of-append : (xs ys : List (Envelope Cmd)) → kib_of (xs ++ ys) ≡ kib_of xs + kib_of ys
  unfolding kib_of
  kib_of-append [] ys = omega arith
  kib_of-append (x ∷ xs) ys = omega (arith, kib_of-append xs ys)

  -- The call that a runner holds and has not yet given back to its mailbox.
  abbrev pub held : Phase Cmd → Option (Envelope Cmd)
  held Phase.starting = none
  held Phase.retiring = none
  held (running e) = some e
  held (answered e) = some e
  held (releasing retained next) = next

  abbrev pub size : Option (Envelope Cmd) → ℕ
  size none = 0
  size (some e) = 1

  abbrev pub weigh : Option (Envelope Cmd) → ℕ
  weigh none = 0
  weigh (some e) = e.retained_kib

  -- The permit that is still out for a call that was given back.
  abbrev pub owed : Phase Cmd → ℕ
  owed (releasing retained next) = 1
  owed _ = 0

  abbrev pub owed_kib : Phase Cmd → ℕ
  owed_kib (releasing retained next) = retained
  owed_kib _ = 0

  abbrev pub unanswered : Phase Cmd → ℕ
  unanswered (running e) = 1
  unanswered (releasing retained (some e)) = 1
  unanswered _ = 0

  -- A runner that starts has a call.
  abbrev pub has_call : Phase Cmd → List (Envelope Cmd) → Bool
  has_call Phase.starting [] = false
  has_call _ _ = true

  -- The permits that are out for the calls of a player, and their KiB.
  abbrev pub permits : Worker Cmd → ℕ
  permits w = w.inflight_calls + owed w.phase

  abbrev pub permits_kib : Worker Cmd → ℕ
  permits_kib w = w.inflight_kib + owed_kib w.phase

  abbrev pub queue_length : Worker Cmd → ℕ
  queue_length w = length w.queue

  abbrev pub one : Worker Cmd → ℕ
  one w = 1

  -- The calls that were accepted and are not answered.
  abbrev pub pending : Worker Cmd → ℕ
  pending w = length w.queue + unanswered w.phase

  -- The counters of one mailbox, and its limits.
  pub record IsFine (config : LogicConfig) (w : Worker Cmd) : Type 0 where
    pub calls : w.inflight_calls ≡ length w.queue + size (held w.phase)
    pub kib : w.inflight_kib ≡ kib_of w.queue + weigh (held w.phase)
    pub few : w.inflight_calls ≤ config.max_calls_per_gid
    pub light : w.inflight_kib ≤ config.max_kib_per_gid
    pub ready : has_call w.phase w.queue ≡ true

  -- The counters of the runtime.
  pub record Accounts (config : LogicConfig) (closed : Bool) (rt : Runtime Cmd) : Type 0 where
    pub distinct : Distinct rt.directory
    pub fine : (gid : ℤ) (w : Worker Cmd) → get gid rt.directory ≡ some w → IsFine config w
    pub calls :
        rt.admission.calls ≡ total permits rt.directory + (if closed then admission_closed else 0)
    pub kib : rt.admission.kib ≡ total permits_kib rt.directory
    pub few : total permits rt.directory ≤ config.max_inflight_calls
    pub light : total permits_kib rt.directory ≤ config.max_inflight_kib
    pub max_calls : rt.admission.max_calls ≡ config.max_inflight_calls
    pub max_kib : rt.admission.max_kib ≡ config.max_inflight_kib
    pub queued : rt.stats.queued ≡ total queue_length rt.directory
    pub active : rt.stats.active_gids ≡ total one rt.directory
    pub accepted : rt.stats.accepted ≡ rt.stats.completed + total pending rt.directory

  pub insert-IsFine :
      (config : LogicConfig) (closed : Bool) (rt : Runtime Cmd) (gid : ℤ) (w : Worker Cmd)
      → Accounts config closed rt
      → IsFine config w
      → (k : ℤ) (v : Worker Cmd) → get k (insert gid w rt.directory) ≡ some v
      → IsFine config v
  insert-IsFine config closed rt gid w a f k v e = elim (Bool-cases (eqb_ℤ gid k)) [
    | inl h ↦ let same : w ≡ v = ground (arith, get-insert gid k w rt.directory) in rw (← same) f
    | inr h ↦ a.fine k v (ground (arith, get-insert gid k w rt.directory))
  ]

  -- A worker moves on, and the counters with it.
  pub move-Accounts :
      (config : LogicConfig) (closed : Bool) (rt : Runtime Cmd) (gid : ℤ) (w v : Worker Cmd)
      (admission : Admission) (stats : Stats)
      → Accounts config closed rt
      → get gid rt.directory ≡ some w
      → IsFine config v
      → admission.calls + permits w ≡ rt.admission.calls + permits v
      → admission.kib + permits_kib w ≡ rt.admission.kib + permits_kib v
      → (admission.max_calls ≡ rt.admission.max_calls) × (admission.max_kib ≡ rt.admission.max_kib)
      → (permits v ≤ permits w) × (permits_kib v ≤ permits_kib w)
      → stats.queued + queue_length w ≡ rt.stats.queued + queue_length v
      → (stats.active_gids ≡ rt.stats.active_gids) × (stats.accepted ≡ rt.stats.accepted)
      → stats.completed + pending v ≡ rt.stats.completed + pending w
      → Accounts config closed
          (record { admission = admission; directory = insert gid v rt.directory; stats = stats })
  move-Accounts config closed rt gid w v admission stats a e f calls kib maxes less queued same
        completed =
      let d = rt.directory in
      let t1 = total-replace permits gid w v d e in
      let t2 = total-replace permits_kib gid w v d e in
      let t3 = total-replace queue_length gid w v d e in
      let t4 = total-replace one gid w v d e in
      let t5 = total-replace pending gid w v d e in
      record {
        distinct = insert-Distinct gid v d a.distinct;
        fine = insert-IsFine config closed rt gid v a f;
        calls = omega (arith, a.calls, t1, calls);
        kib = omega (arith, a.kib, t2, kib);
        few = omega (arith, a.few, t1, less);
        light = omega (arith, a.light, t2, less);
        max_calls = omega (arith, a.max_calls, maxes);
        max_kib = omega (arith, a.max_kib, maxes);
        queued = omega (arith, a.queued, t3, queued);
        active = omega (arith, a.active, t4, same);
        accepted = omega (arith, a.accepted, t5, same, completed);
      }
