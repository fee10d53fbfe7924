-- ===== src/Logic/Runtime/Admission/Words.antt =====
-- The two words of the admission under calls that come and go at once: each change of a word is a step, and
-- the steps of different calls come in any order.
use xkk.Common.{
  ℕ, ◌+◌, ◌≤◌, ◌<◌, ◌≡◌, refl, Bool, true, false, Option, none, some, List, [], ◌∷◌, arith,
  if◌then◌else◌, ok, err, inl, inr, Option-cases, Result-cases,
}
use xkk.Common.Int.{ℤ, pos}
use xkk.Common.Keys.{Map, get, insert, remove, int_key}
use xkk.Common.Keys.Totals.{
  Distinct, insert-Distinct, remove-Distinct, total, total-insert, total-replace, total-without,
}
use xkk.Logic.Runtime.{LogicConfig, admission_closed, admission_count_mask}
use xkk.Logic.Runtime.Admission.{
  Admission, new, is_closed, acquire_call, checked_add_u64, reserve_kib, give_call, give_kib, close,
}

-- A call that is counted and has to reserve its KiB, that found no room for them and has to give its place
-- back, that has a permit, and whose permit has given its place back but not its KiB.
pub data Call : Type 0 where
  counted live leaving : ℕ → Call
  failed : Call

-- `closed` only records that the admission was closed.
pub record Words : Type 0 where
  pub admission : Admission
  pub calls : Map ℤ Call
  pub closed : Bool

pub data Step : Type 0 where
  asks : ℤ → ℕ → Step
  reserves gives_back drops frees : ℤ → Step
  closes : Step

abbrev pub start_words : LogicConfig → Words
start_words config = record { admission = new config; calls = []; closed = false }

-- A step that the call does not stand before changes nothing.
reserve_step : Words → ℤ → Option Call → Words
reserve_step w id (some (counted retained)) = elim (reserve_kib w.admission retained) [
  | none ↦ record w { calls = insert id failed w.calls }
  | some reserved ↦ record w { admission = reserved; calls = insert id (live retained) w.calls }
]
reserve_step w id _ = w

give_step : Words → ℤ → Option Call → Words
give_step w id (some failed) = record w {
  admission = give_call w.admission;
  calls = remove id w.calls;
}
give_step w id _ = w

drop_step : Words → ℤ → Option Call → Words
drop_step w id (some (live retained)) = record w {
  admission = give_call w.admission;
  calls = insert id (leaving retained) w.calls;
}
drop_step w id _ = w

free_step : Words → ℤ → Option Call → Words
free_step w id (some (leaving retained)) = record w {
  admission = give_kib w.admission retained;
  calls = remove id w.calls;
}
free_step w id _ = w

unfoldable pub step_words : Words → Step → Words
unfolding reserve_step give_step drop_step free_step
step_words w (asks id retained) = elim (get id w.calls) [
  | some _ ↦ w
  | none ↦ elim (acquire_call w.admission) [
    | err _ ↦ w
    | ok admission ↦ record w {
      admission = admission;
      calls = insert id (counted retained) w.calls;
    }
  ]
]
step_words w (reserves id) = reserve_step w id (get id w.calls)
step_words w (gives_back id) = give_step w id (get id w.calls)
step_words w (drops id) = drop_step w id (get id w.calls)
step_words w (frees id) = free_step w id (get id w.calls)
step_words w closes = record w { admission = close w.admission; closed = true }

unfoldable pub run_words : Words → List Step → Words
run_words w [] = w
run_words w (s ∷ steps) = run_words (step_words w s) steps

abbrev pub place : Call → ℕ
place (leaving retained) = 0
place _ = 1

abbrev pub reserved : Call → ℕ
reserved (live retained) = retained
reserved (leaving retained) = retained
reserved _ = 0

-- Each word is the sum of what the calls hold of it, within its limit.
pub record IsExact (config : LogicConfig) (w : Words) : Type 0 where
  pub distinct : Distinct w.calls
  pub counts : w.admission.calls ≡ total place w.calls + (if w.closed then admission_closed else 0)
  pub weighs : w.admission.kib ≡ total reserved w.calls
  pub few : total place w.calls ≤ config.max_inflight_calls
  pub light : total reserved w.calls ≤ config.max_inflight_kib
  pub calls_limit : w.admission.max_calls ≡ config.max_inflight_calls
  pub kib_limit : w.admission.max_kib ≡ config.max_inflight_kib

call_taken :
    (a a' : Admission)
    → acquire_call a ≡ ok a'
    → (a.calls < admission_closed)
      × (a.calls < a.max_calls)
      × (a'.calls ≡ a.calls + 1)
      × (a'.kib ≡ a.kib)
      × (a'.max_calls ≡ a.max_calls)
      × (a'.max_kib ≡ a.max_kib)
unfolding acquire_call is_closed
call_taken a a' h = ground arith

kib_taken :
    (a a' : Admission) (retained : ℕ)
    → reserve_kib a retained ≡ some a'
    → (a'.calls ≡ a.calls)
      × (a'.kib ≡ a.kib + retained)
      × (a'.kib ≤ a.max_kib)
      × (a'.max_calls ≡ a.max_calls)
      × (a'.max_kib ≡ a.max_kib)
unfolding checked_add_u64
kib_taken a a' retained h = ground arith

module _ (config : LogicConfig) (countable : config.max_inflight_calls ≤ admission_count_mask)
    (id : ℤ) (retained : ℕ) (w : Words) (i : IsExact config w) where
  ask-IsExact : IsExact config (step_words w (asks id retained))
  unfolding step_words acquire_call is_closed
  ask-IsExact = elim (Option-cases (get id w.calls)) [
    | inr (c, e) ↦ rw (e, step_words) i
    | inl e ↦
        let places = total-insert place id (counted retained) w.calls in
        let sums = total-insert reserved id (counted retained) w.calls in
        let placed : total place (insert id (counted retained) w.calls) ≡ total place w.calls + 1 =
          omega (arith, rw e at places) in
        let summed : total reserved (insert id (counted retained) w.calls)
            ≡ total reserved w.calls =
          omega (arith, rw e at sums) in
        elim (Result-cases (acquire_call w.admission)) [
          | inr (reason, f) ↦ rw (e, f, step_words) i
          | inl (a, f) ↦
              let t = call_taken w.admission a f in
              rw (e, f, step_words)
                (record {
                  distinct = insert-Distinct id (counted retained) w.calls i.distinct;
                  counts = ground (arith, t, i.counts, placed);
                  weighs = ground (arith, t, i.weighs, summed);
                  few = ground (arith, t, i.counts, placed, i.calls_limit);
                  light = ground (arith, summed, i.light);
                  calls_limit = ground (arith, t, i.calls_limit);
                  kib_limit = ground (arith, t, i.kib_limit);
                })
        ]
  ]

  reserve-IsExact :
      get id w.calls ≡ some (counted retained)
      → IsExact config (reserve_step w id (some (counted retained)))
  unfolding reserve_step checked_add_u64
  reserve-IsExact e =
      let places = total-replace place id (counted retained) failed w.calls e in
      let places' = total-replace place id (counted retained) (live retained) w.calls e in
      let sums = total-replace reserved id (counted retained) failed w.calls e in
      let sums' = total-replace reserved id (counted retained) (live retained) w.calls e in
      elim (Option-cases (reserve_kib w.admission retained)) [
        | inl f ↦
            rw (f, reserve_step)
              (record {
                distinct = insert-Distinct id failed w.calls i.distinct;
                counts = ground (arith, i.counts, places);
                weighs = ground (arith, i.weighs, sums);
                few = ground (arith, i.few, places);
                light = ground (arith, i.light, sums);
                calls_limit = i.calls_limit;
                kib_limit = i.kib_limit;
              })
        | inr (a, f) ↦
            let t = kib_taken w.admission a retained f in
            rw (f, reserve_step)
              (record {
                distinct = insert-Distinct id (live retained) w.calls i.distinct;
                counts = ground (arith, t, i.counts, places');
                weighs = ground (arith, t, i.weighs, sums');
                few = ground (arith, i.few, places');
                light = ground (arith, t, i.weighs, sums', i.kib_limit);
                calls_limit = ground (arith, t, i.calls_limit);
                kib_limit = ground (arith, t, i.kib_limit);
              })
      ]

  give-IsExact : get id w.calls ≡ some failed → IsExact config (give_step w id (some failed))
  unfolding give_step
  give-IsExact e =
      let places = total-without place id failed w.calls i.distinct e in
      let sums = total-without reserved id failed w.calls i.distinct e in
      record {
        distinct = remove-Distinct id w.calls i.distinct;
        counts = ground (arith, i.counts, places);
        weighs = ground (arith, i.weighs, sums);
        few = ground (arith, i.few, places);
        light = ground (arith, i.light, sums);
        calls_limit = i.calls_limit;
        kib_limit = i.kib_limit;
      }

  drop-IsExact :
      get id w.calls ≡ some (live retained) → IsExact config (drop_step w id (some (live retained)))
  unfolding drop_step
  drop-IsExact e =
      let places = total-replace place id (live retained) (leaving retained) w.calls e in
      let sums = total-replace reserved id (live retained) (leaving retained) w.calls e in
      record {
        distinct = insert-Distinct id (leaving retained) w.calls i.distinct;
        counts = ground (arith, i.counts, places);
        weighs = ground (arith, i.weighs, sums);
        few = ground (arith, i.few, places);
        light = ground (arith, i.light, sums);
        calls_limit = i.calls_limit;
        kib_limit = i.kib_limit;
      }

  free-IsExact :
      get id w.calls ≡ some (leaving retained)
      → IsExact config (free_step w id (some (leaving retained)))
  unfolding free_step
  free-IsExact e =
      let places = total-without place id (leaving retained) w.calls i.distinct e in
      let sums = total-without reserved id (leaving retained) w.calls i.distinct e in
      record {
        distinct = remove-Distinct id w.calls i.distinct;
        counts = ground (arith, i.counts, places);
        weighs = ground (arith, i.weighs, sums);
        few = ground (arith, i.few, places);
        light = ground (arith, i.light, sums);
        calls_limit = i.calls_limit;
        kib_limit = i.kib_limit;
      }

  close-IsExact : IsExact config (step_words w closes)
  unfolding step_words close is_closed
  close-IsExact = record {
    distinct = i.distinct;
    counts = ground (arith, i.counts, i.few, countable);
    weighs = ground (arith, i.weighs);
    few = i.few;
    light = i.light;
    calls_limit = ground (arith, i.calls_limit);
    kib_limit = ground (arith, i.kib_limit);
  }

module _ (config : LogicConfig) (countable : config.max_inflight_calls ≤ admission_count_mask) where
  step-IsExact : (w : Words) (s : Step) → IsExact config w → IsExact config (step_words w s)
  unfolding step_words reserve_step give_step drop_step free_step
  step-IsExact w (asks id retained) i = ask-IsExact config countable id retained w i
  step-IsExact w (reserves id) i = elim (Option-cases (get id w.calls)) [
    | inl e ↦ rw (e, step_words) i
    | inr (counted k, e) ↦ rw (e, step_words) (reserve-IsExact config countable id k w i e)
    | inr (failed, e) ↦ rw (e, step_words) i
    | inr (live k, e) ↦ rw (e, step_words) i
    | inr (leaving k, e) ↦ rw (e, step_words) i
  ]
  step-IsExact w (gives_back id) i = elim (Option-cases (get id w.calls)) [
    | inl e ↦ rw (e, step_words) i
    | inr (counted k, e) ↦ rw (e, step_words) i
    | inr (failed, e) ↦ rw (e, step_words) (give-IsExact config countable id 0 w i e)
    | inr (live k, e) ↦ rw (e, step_words) i
    | inr (leaving k, e) ↦ rw (e, step_words) i
  ]
  step-IsExact w (drops id) i = elim (Option-cases (get id w.calls)) [
    | inl e ↦ rw (e, step_words) i
    | inr (counted k, e) ↦ rw (e, step_words) i
    | inr (failed, e) ↦ rw (e, step_words) i
    | inr (live k, e) ↦ rw (e, step_words) (drop-IsExact config countable id k w i e)
    | inr (leaving k, e) ↦ rw (e, step_words) i
  ]
  step-IsExact w (frees id) i = elim (Option-cases (get id w.calls)) [
    | inl e ↦ rw (e, step_words) i
    | inr (counted k, e) ↦ rw (e, step_words) i
    | inr (failed, e) ↦ rw (e, step_words) i
    | inr (live k, e) ↦ rw (e, step_words) i
    | inr (leaving k, e) ↦ rw (e, step_words) (free-IsExact config countable id k w i e)
  ]
  step-IsExact w closes i = close-IsExact config countable (pos 0) 0 w i

  steps-IsExact :
      (w : Words) (steps : List Step) → IsExact config w → IsExact config (run_words w steps)
  unfolding run_words
  steps-IsExact w [] i = i
  steps-IsExact w (s ∷ steps) i = steps-IsExact (step_words w s) steps (step-IsExact w s i)

  start-IsExact : IsExact config (start_words config)
  unfolding total
  start-IsExact = record {
    distinct = tt;
    counts = refl;
    weighs = refl;
    few = omega arith;
    light = omega arith;
    calls_limit = refl;
    kib_limit = refl;
  }

-- However the changes of the two words by calls that ask for permits, fail and drop them are interleaved, with
-- an end of the admission among them, where the limit of calls is below 2^63: the one word is the number of
-- calls that hold a place, beside its closing bit, and the other the KiB of the permits that have not given
-- them back, and neither is above its limit.
pub run_words-IsExact :
    (config : LogicConfig) (steps : List Step)
    → config.max_inflight_calls ≤ admission_count_mask
    → IsExact config (run_words (start_words config) steps)
run_words-IsExact config steps countable =
    steps-IsExact config countable (start_words config) steps (start-IsExact config countable)
