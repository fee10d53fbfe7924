-- ===== src/Logic/Runtime/Examples.antt =====
-- Runs of a small runtime.
use xkk.Common.{
  ℕ, ◌≡◌, refl, ◌⊎◌, inl, inr, Bool, true, false, none, some, List, [], ◌∷◌, ◌++◌, arith,
}
use xkk.Common.Int.{ℤ, pos, eqb_ℤ, eqb_ℤ_iff}
use xkk.Common.Keys.{Map, get, insert, remove, int_key, nat_key}
use xkk.Logic.Runtime.{LogicConfig}
use xkk.Logic.Runtime.Admission.{acquire_call, is_closed, checked_add_u64, close}
use xkk.Logic.Runtime.Admission.Words.{
  Step, asks, reserves, gives_back, drops, closes, step_words, start_words, run_words, IsExact,
  run_words-IsExact,
}
use xkk.Logic.Runtime.Mailbox.{Worker, Runtime, start_draining, is_drained}
use xkk.Logic.Runtime.Mailbox.Invariant.{IsUsable, Accounts}
use xkk.Logic.Runtime.Mailbox.Runs.{Action, submit, advance, drain, start, run, run-Accounts}
use xkk.Logic.Runtime.Mailbox.Order.{backlog, accepted_calls, answered_calls, run_is_fifo}
use xkk.Logic.Runtime.Mailbox.Drain.{work, drive, run_drains}
use xkk.Logic.Runtime.Cell.{
  Cells, new_dirty, Act, prepares, fails_preload, begins_save, executes, ends_save, loads, on,
}
use xkk.Logic.Runtime.Cell
use xkk.Logic.Runtime.Cell.Runs.{IsSound, run-IsSound}

-- At most three calls and 10 KiB at once, and two calls and 8 KiB of a player.
abbrev small : LogicConfig
small = record {
  resident_capacity = 4;
  ttl = 1_000;
  shards = 1;
  batch_save_count = 1;
  max_dirty_players = 2;
  max_inflight_calls = 3;
  max_inflight_kib = 10;
  max_calls_per_gid = 2;
  max_kib_per_gid = 8;
}

small-IsUsable : IsUsable small
small-IsUsable = record { countable = omega arith; weighable = omega arith }

-- A call that finds no room for its KiB holds a place until it gives it back, so that the call after it is
-- refused although only two permits are out.
abbrev crowded : List Step
crowded =
    asks (pos 1) 4
    ∷ asks (pos 2) 4
    ∷ reserves (pos 1)
    ∷ reserves (pos 2)
    ∷ asks (pos 3) 4
    ∷ reserves (pos 3)
    ∷ asks (pos 4) 1
    ∷ gives_back (pos 3)
    ∷ drops (pos 1)
    ∷ closes
    ∷ []

run_words-IsExact_example : IsExact small (run_words (start_words small) crowded)
run_words-IsExact_example = run_words-IsExact small crowded (omega arith)

crowded_refuses : get (pos 4) (run_words (start_words small) crowded).calls ≡ none
unfolding run_words step_words acquire_call is_closed checked_add_u64 close insert get remove eqb_ℤ
crowded_refuses = refl

-- Two players; the third call of the first one finds its mailbox full, and the call after the end of
-- admission is refused.
abbrev calls : List (Action ℕ)
calls =
    submit (pos 7) 1 40
    ∷ submit (pos 7) 2 41
    ∷ submit (pos 7) 1 42
    ∷ submit (pos 8) 1 50
    ∷ advance (pos 7)
    ∷ advance (pos 7)
    ∷ advance (pos 7)
    ∷ advance (pos 8)
    ∷ drain
    ∷ submit (pos 7) 1 43
    ∷ advance (pos 7)
    ∷ []

run-Accounts_example :
    (rt : Runtime ℕ) × (run small (start small) calls ≡ some rt)
    × (closed : Bool) × Accounts small closed rt
run-Accounts_example = run-Accounts small small-IsUsable calls

run_is_fifo_example :
    (rt : Runtime ℕ) × (run small (start small) calls ≡ some rt)
    × ((gid : ℤ)
        → accepted_calls small (start small) gid calls
          ≡ answered_calls small (start small) gid calls ++ backlog rt gid)
run_is_fifo_example = run_is_fifo small small-IsUsable calls

-- The player of the first entry of the directory.
abbrev first_gid : Runtime ℕ → ℤ
first_gid rt = elim rt.directory [ [] ↦ pos 0 | (gid, w) ∷ d ↦ gid ]

first_there :
    (d : Map ℤ (Worker ℕ))
    → (d ≡ [])
      ⊎ ((w : Worker ℕ) × (get (elim d as (λ x. ℤ) [ [] ↦ pos 0 | (gid, w) ∷ d ↦ gid ]) d ≡ some w))
unfolding get
first_there [] = inl refl
first_there ((gid, w) ∷ d) = inr (w, ground (arith, eqb_ℤ_iff gid gid))

-- Another call of each player comes in before each step.
abbrev late_calls : Runtime ℕ → List (ℤ × ℕ × ℕ)
late_calls rt = (pos 7, 1, 60) ∷ (pos 9, 1, 61) ∷ []

run_drains_example :
    (rt : Runtime ℕ) × (run small (start small) calls ≡ some rt)
    × (rt' : Runtime ℕ) × (drive small late_calls first_gid (work rt) (start_draining rt)
        ≡ some rt')
    × (rt'.directory ≡ [])
    × (is_drained rt' ≡ true)
    × (rt'.stats.completed ≡ rt'.stats.accepted)
run_drains_example =
    run_drains small small-IsUsable late_calls first_gid (λ rt. first_there rt.directory) calls

-- A player is its dirty flag. The first one changes and its save fails, so that a second call runs on a
-- dirty player; the second player finds a slot, the third one does not.
abbrev saves : List (Cell.Action Bool)
saves =
    loads 1 false
    ∷ loads 2 false
    ∷ loads 3 false
    ∷ on 1 prepares
    ∷ on 2 prepares
    ∷ on 3 prepares
    ∷ on 1 (executes true)
    ∷ on 1 (ends_save true)
    ∷ on 1 prepares
    ∷ on 2 fails_preload
    ∷ on 1 (executes false)
    ∷ []

abbrev itself : Bool → Bool
itself b = b

run-IsSound_example :
    (c : Cells Bool) × (Cell.run itself (record { players = []; dirty = new_dirty 2 }) saves
      ≡ some c)
    × IsSound itself 2 c
run-IsSound_example =
    run-IsSound itself 2 saves
      (refl, (refl, (refl, (tt, (tt, (tt, (tt, (tt, (tt, (tt, (tt, tt)))))))))))
