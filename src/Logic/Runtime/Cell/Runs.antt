-- ===== src/Logic/Runtime/Cell/Runs.antt =====
-- The dirty slots in every run of a runtime.
use xkk.Common.{
  ℕ, ◌+◌, ◌-◌, ◌≤◌, ◌≡◌, refl, sym, inl, inr, Bool, false, Option, none, some, List, [], ◌∷◌, arith,
  eqb, eqb_iff, is_some, Bool-cases, Option-cases, ◌∙◌,
}
use xkk.Common.Keys.{get, insert, get-insert, nat_key}
use xkk.Common.Keys.Totals.{
  Distinct, total, total-insert, insert-Distinct, weight?, total-replace, total-without,
}
use xkk.Logic.Runtime.Cell.{
  Gate, PlayerCell, Dirty, Cells, new_dirty, mark_dirty, new_cell, Act, act, put, Action, loads, on,
  step, run,
}
use xkk.Logic.Runtime.Cell.Slots.{one, held, Marked, IsGood, IsStep, act-IsStep, mark_dirty-Marked}

module _ {P : Type 0} (is_dirty : P → Bool) where
  -- The counters of the cells: each dirty player has a slot and stands in the registry, each slot that is
  -- counted belongs to a dirty player or is reserved by the call that runs on a clean one.
  pub record IsSound (max : ℕ) (c : Cells P) : Type 0 where
    pub players : Distinct c.players
    pub distinct : Distinct c.dirty.dirty_since
    pub counted : c.dirty.dirty_players ≡ total one c.dirty.dirty_since
    pub good :
        (id : ℕ) (p : PlayerCell P) → get id c.players ≡ some p → IsGood is_dirty id c.dirty p
    pub absent : (id : ℕ) → get id c.players ≡ none → is_some (get id c.dirty.dirty_since) ≡ false
    pub slots : c.dirty.slots ≡ total held c.players
    pub few : c.dirty.slots ≤ c.dirty.max
    pub same_max : c.dirty.max ≡ max

  -- A player that is loaded is clean.
  abbrev pub IsClean : Action P → Type 0
  IsClean (loads id state) = is_dirty state ≡ false
  IsClean (on id a) = Unit {0}

  abbrev pub AreClean : List (Action P) → Type 0
  AreClean [] = Unit {0}
  AreClean (a ∷ actions) = IsClean a × AreClean actions

  module _ (max : ℕ) (c : Cells P) (s : IsSound max c) (id : ℕ) (d' : Dirty)
      (p' : PlayerCell P) where
    -- What is good stays good when another cell moves.
    others-IsGood :
        (dirty : Bool) (j : ℕ) (p : PlayerCell P)
        → Marked id c.dirty d' dirty
        → d'.slots ≤ d'.max
        → eqb id j ≡ false
        → IsGood is_dirty j c.dirty p
        → IsGood is_dirty j d' p
    others-IsGood dirty j p m few h g = record {
      slot = g.slot;
      gate = g.gate;
      own = rw (m.others j h) g.own;
      distinct = m.distinct;
      counted = m.counted;
      few = few;
    }

    all-IsGood :
        (dirty : Bool)
        → Marked id c.dirty d' dirty
        → IsGood is_dirty id d' p'
        → (j : ℕ) (p : PlayerCell P) → get j (insert id p' c.players) ≡ some p
        → IsGood is_dirty j d' p
    all-IsGood dirty m g j p e = elim (Bool-cases (eqb id j)) [
      | inl h ↦
          let same : p' ≡ p = ground (arith, get-insert id j p' c.players) in
          rw (← same) (rw (← (eqb_iff id j).0 h) g)
      | inr h ↦
          others-IsGood dirty j p m g.few h
            (s.good j p (ground (arith, get-insert id j p' c.players)))
    ]

    absent_later :
        {dirty : Bool}
        → Marked id c.dirty d' dirty
        → (j : ℕ) → get j (insert id p' c.players) ≡ none
        → is_some (get j d'.dirty_since) ≡ false
    absent_later m j e = elim (Bool-cases (eqb id j)) [
      | inl h ↦
          let found : some p' ≡ none = ground (arith, get-insert id j p' c.players) in absurd (cc)
      | inr h ↦ rw (m.others j h) (s.absent j (ground (arith, get-insert id j p' c.players)))
    ]

    step-IsSound :
        (n : ℕ)
        → IsStep is_dirty id n c.dirty d' p'
        → total held (insert id p' c.players) ≡ n + held p'
        → IsSound max (record { players = insert id p' c.players; dirty = d' })
    step-IsSound n t sum = record {
      players = insert-Distinct id p' c.players s.players;
      distinct = t.marked.distinct;
      counted = t.marked.counted;
      good = all-IsGood (is_dirty p'.state) t.marked (record {
        slot = t.slot;
        gate = t.gate;
        own = t.marked.own;
        distinct = t.marked.distinct;
        counted = t.marked.counted;
        few = omega (arith, t.few, t.marked.same_max);
      });
      absent = absent_later t.marked;
      slots = omega (arith, t.slots, sum);
      few = omega (arith, t.few, t.marked.same_max);
      same_max = t.marked.same_max ∙ s.same_max;
    }

  act-IsSound :
      (max : ℕ) (c : Cells P) (id : ℕ) (p : PlayerCell P) (a : Act P)
      → IsSound max c
      → get id c.players ≡ some p
      → (c' : Cells P) × (put c id (act is_dirty c.dirty id p p.gate a) ≡ some c') × IsSound max c'
  unfolding put
  act-IsSound max c id p a s e =
      let n = c.dirty.slots - held p in
      let out = total-without held id p c.players s.players e in
      let (d', p', acts, t) =
        act-IsStep is_dirty c.dirty id n p.state p.dirty_slot p.gate a (s.good id p e)
          (omega (arith, s.slots, out)) in
      let sum = total-replace held id p p' c.players e in
      (
        record { players = insert id p' c.players; dirty = d' },
        rw (acts, put) refl,
        step-IsSound max c s id d' p' n t (omega (arith, s.slots, out, sum)),
      )

  new_cell-IsSound :
      (max : ℕ) (c : Cells P) (id : ℕ) (state : P)
      → IsSound max c
      → is_some (get id c.players) ≡ false
      → is_dirty state ≡ false
      → (c' : Cells P) × (new_cell is_dirty c id state ≡ some c') × IsSound max c'
  unfolding new_cell
  new_cell-IsSound max c id state s fresh clean =
      let p' : PlayerCell P = record { state = state; dirty_slot = false; gate = Gate.free } in
      let (m, same) = mark_dirty-Marked c.dirty id false s.distinct s.counted in
      let t : total held (insert id p' c.players) + weight? held (get id c.players)
          ≡ total held c.players + held p' =
        total-insert held id p' c.players in
      (
        record { players = insert id p' c.players; dirty = mark_dirty c.dirty id false },
        rw clean refl,
        step-IsSound max c s id (mark_dirty c.dirty id false) p' (total held c.players)
            (record {
              slot = sym clean;
              gate = refl;
              slots = omega (arith, same, s.slots);
              few = omega (arith, same, s.few);
              marked = rw clean m;
            })
            (no_weight (get id c.players) fresh t),
      )
    where
      no_weight :
          {a b : ℕ} (o : Option (PlayerCell P)) → is_some o ≡ false → a + weight? held o ≡ b → a ≡ b
      no_weight none e t = omega (arith, t)
      no_weight (some p) e t = absurd (cc)

  step_keeps :
      (max : ℕ) (c : Cells P) (a : Action P)
      → IsSound max c
      → IsClean a
      → (c' : Cells P) × (step is_dirty c a ≡ some c') × IsSound max c'
  unfolding step
  step_keeps max c (loads id state) s clean = elim (Bool-cases (is_some (get id c.players))) [
    | inl h ↦ (c, rw h refl, s)
    | inr h ↦ let (c', e, s') = new_cell-IsSound max c id state s h clean in (c', rw h e, s')
  ]
  step_keeps max c (on id a) s clean = elim (Option-cases (get id c.players)) [
    | inl e ↦ (c, rw (e, step) refl, s)
    | inr (p, e) ↦ let (c', acts, s') = act-IsSound max c id p a s e in (c', rw (e, step) acts, s')
  ]

  run_keeps :
      (max : ℕ) (c : Cells P) (actions : List (Action P))
      → IsSound max c
      → AreClean actions
      → (c' : Cells P) × (run is_dirty c actions ≡ some c') × IsSound max c'
  unfolding run
  run_keeps max c [] s clean = (c, refl, s)
  run_keeps max c (a ∷ actions) s (clean, rest) =
      let (next, steps, s') = step_keeps max c a s clean in
      let (c', runs, s'') = run_keeps max next actions s' rest in (c', rw (steps, run) runs, s'')

  -- Where the loader returns clean players, no run of the cells of a new runtime fails an assertion, and
  -- after it each dirty player has a slot and stands in the registry of dirty players, no clean player
  -- has one, and the slots that are counted are those of the dirty players and those that running calls
  -- reserve for a clean one, and are never more than the limit.
  pub run-IsSound :
      (max : ℕ) (actions : List (Action P))
      → AreClean actions
      → (c : Cells P) × (run is_dirty (record { players = []; dirty = new_dirty max }) actions
          ≡ some c)
        × IsSound max c
  unfolding get total
  run-IsSound max actions clean =
      run_keeps max (record { players = []; dirty = new_dirty max }) actions
        (record {
          players = tt;
          distinct = tt;
          counted = refl;
          good = λ id p e. absurd (cc);
          absent = λ id e. refl;
          slots = refl;
          few = omega arith;
          same_max = refl;
        })
        clean
