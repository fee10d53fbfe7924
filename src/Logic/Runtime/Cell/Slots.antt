-- ===== src/Logic/Runtime/Cell/Slots.antt =====
-- The dirty slots of the players: what each operation on a cell does to the counters.
use xkk.Common.{
  ℕ, ◌+◌, ◌-◌, ◌≤◌, ◌<◌, ◌≡◌, refl, sym, inl, inr, Bool, true, false, not, ◌||◌, Option, none, some,
  arith, if◌then◌else◌, ltb, eqb, eqb_iff, is_some, Bool-cases, ◌∙◌,
}
use xkk.Common.Keys.{Map, get, insert, remove, get-insert, get-remove, nat_key}
use xkk.Common.Keys.Totals.{
  Distinct, total, total-insert, total-remove, insert-Distinct, remove-Distinct, weight?,
}
use xkk.Logic.Runtime.Cell.{
  Gate, prepared, PlayerCell, Dirty, acquire, release, mark_dirty, drop_permit, refresh_dirty,
  finish_logic, prepare, fail_preload, execute, begin_save, end_save, Act, prepares, fails_preload,
  begins_save, executes, ends_save, act,
}

abbrev pub one : Unit {0} → ℕ
one u = 1

abbrev pub count : Bool → ℕ
count b = if b then 1 else 0

abbrev pub reserved : Gate → ℕ
reserved (prepared true) = 1
reserved _ = 0

-- A runner has a reservation if the player has no slot; a save holds a player with one.
abbrev pub agrees : Gate → Bool → Bool
agrees Gate.free slot = true
agrees Gate.saving slot = slot
agrees (prepared r) slot = if r then not slot else slot

abbrev pub held : {P : Type 0} → PlayerCell P → ℕ
held p = count p.dirty_slot + reserved p.gate

-- The registry of the dirty players is as it was for the others, and says this of one.
pub record Marked (id : ℕ) (before after : Dirty) (dirty : Bool) : Type 0 where
  pub own : is_some (get id after.dirty_since) ≡ dirty
  pub others : (j : ℕ) → eqb id j ≡ false → get j after.dirty_since ≡ get j before.dirty_since
  pub distinct : Distinct after.dirty_since
  pub counted : after.dirty_players ≡ total one after.dirty_since
  pub same_max : after.max ≡ before.max

-- What holds of a cell and the counters.
pub record IsGood {P : Type 0} (is_dirty : P → Bool) (id : ℕ) (d : Dirty) (p : PlayerCell P)
    : Type 0 where
  pub slot : p.dirty_slot ≡ is_dirty p.state
  pub gate : agrees p.gate p.dirty_slot ≡ true
  pub own : is_some (get id d.dirty_since) ≡ is_dirty p.state
  pub distinct : Distinct d.dirty_since
  pub counted : d.dirty_players ≡ total one d.dirty_since
  pub few : d.slots ≤ d.max

-- An operation on a cell, where the other cells hold as many slots as before.
pub record IsStep {P : Type 0} (is_dirty : P → Bool) (id : ℕ) (n : ℕ) (d d' : Dirty)
    (p' : PlayerCell P) : Type 0 where
  pub slot : p'.dirty_slot ≡ is_dirty p'.state
  pub gate : agrees p'.gate p'.dirty_slot ≡ true
  pub slots : d'.slots ≡ n + held p'
  pub few : d'.slots ≤ d.max
  pub marked : Marked id d d' (is_dirty p'.state)

weight_one : (o : Option (Unit {0})) → weight? one o ≡ count (is_some o)
weight_one none = refl
weight_one (some u) = refl

module _ (id : ℕ) (since : Map ℕ (Unit {0})) where
  more_marked :
      is_some (get id since) ≡ false → total one (insert id tt since) ≡ total one since + 1
  more_marked h =
      let t : total one (insert id tt since) + weight? one (get id since)
          ≡ total one since + one tt =
        total-insert one id tt since in
      ground (arith, t, weight_one (get id since))

  fewer_marked :
      Distinct since
      → is_some (get id since) ≡ true
      → total one (remove id since) + 1 ≡ total one since
  fewer_marked distinct h =
      let t : total one (remove id since) + weight? one (get id since) ≡ total one since =
        total-remove one id since distinct in
      ground (arith, t, weight_one (get id since))

release-some : (d : Dirty) → 0 < d.slots → release d ≡ some (record d { slots = d.slots - 1 })
unfolding release
release-some d positive = ground arith

pub mark_dirty-Marked :
    (d : Dirty) (id : ℕ) (dirty : Bool)
    → Distinct d.dirty_since
    → d.dirty_players ≡ total one d.dirty_since
    → Marked id d (mark_dirty d id dirty) dirty × ((mark_dirty d id dirty).slots ≡ d.slots)
unfolding mark_dirty
mark_dirty-Marked d id true distinct counted = elim (Bool-cases (is_some (get id d.dirty_since))) [
  | inl h ↦ rw h (
    record {
      own = h;
      others = λ j e. refl;
      distinct = distinct;
      counted = counted;
      same_max = refl;
    },
    refl,
  )
  | inr h ↦ rw h (
    record {
      own = ground (arith, get-insert id id tt d.dirty_since, eqb_iff id id);
      others = λ j e. ground (arith, get-insert id j tt d.dirty_since);
      distinct = insert-Distinct id tt d.dirty_since distinct;
      counted = omega (arith, counted, more_marked id d.dirty_since h);
      same_max = refl;
    },
    refl,
  )
]
mark_dirty-Marked d id false distinct counted = elim (Bool-cases (is_some (get id d.dirty_since))) [
  | inl h ↦ rw h (
    record {
      own = ground (arith, get-remove id id d.dirty_since, eqb_iff id id);
      others = λ j e. ground (arith, get-remove id j d.dirty_since);
      distinct = remove-Distinct id d.dirty_since distinct;
      counted = omega (arith, counted, fewer_marked id d.dirty_since distinct h);
      same_max = refl;
    },
    refl,
  )
  | inr h ↦ rw h (
    record {
      own = h;
      others = λ j e. refl;
      distinct = distinct;
      counted = counted;
      same_max = refl;
    },
    refl,
  )
]

module _ {P : Type 0} (is_dirty : P → Bool) (d : Dirty) (id : ℕ) (state : P) (gate : Gate) where
  abbrev cell : Bool → PlayerCell P
  cell slot = record { state = state; dirty_slot = slot; gate = gate }

  refresh_dirty_stays :
      is_dirty state ≡ true
      → refresh_dirty is_dirty d id (cell true) ≡ some (mark_dirty d id true, cell true, true)
  unfolding refresh_dirty
  refresh_dirty_stays h = rw h refl

  refresh_dirty_clean :
      is_dirty state ≡ false
      → refresh_dirty is_dirty d id (cell false) ≡ some (mark_dirty d id false, cell false, false)
  unfolding refresh_dirty
  refresh_dirty_clean h = rw h refl

  refresh_dirty_gives_back :
      is_dirty state ≡ false
      → 0 < d.slots
      → refresh_dirty is_dirty d id (cell true)
        ≡ some (mark_dirty (record d { slots = d.slots - 1 }) id false, cell false, false)
  unfolding refresh_dirty
  refresh_dirty_gives_back h positive = rw h (rw (release-some d positive) refl)

  -- A refresh, where `n` slots are held by the other cells and by the reservation.
  refresh_dirty_lem :
      (n : ℕ) (slot dirty : Bool)
      → is_dirty state ≡ dirty
      → slot || not dirty ≡ true
      → Distinct d.dirty_since
      → d.dirty_players ≡ total one d.dirty_since
      → d.slots ≡ n + count slot
      → (d' : Dirty) × (refresh_dirty is_dirty d id (cell slot) ≡ some (d', cell dirty, dirty))
        × (d'.slots ≡ n + count dirty)
        × Marked id d d' dirty
  refresh_dirty_lem n true true h fits distinct counted slots =
      let (m, same) = mark_dirty-Marked d id true distinct counted in
      (_, refresh_dirty_stays h, same ∙ slots, m)
  refresh_dirty_lem n false false h fits distinct counted slots =
      let (m, same) = mark_dirty-Marked d id false distinct counted in
      (_, refresh_dirty_clean h, same ∙ slots, m)
  refresh_dirty_lem n true false h fits distinct counted slots =
      let (m, same) =
        mark_dirty-Marked (record d { slots = d.slots - 1 }) id false distinct counted in
      (
        _,
        refresh_dirty_gives_back h (omega (arith, slots)),
        omega (arith, same, slots),
        record {
          own = m.own;
          others = m.others;
          distinct = m.distinct;
          counted = m.counted;
          same_max = m.same_max;
        },
      )
  refresh_dirty_lem n false true h fits distinct counted slots = absurd (cc)

  -- The end of a call; a runner has a reservation exactly if the player had no slot.
  finish_logic_lem :
      (n : ℕ) (slot dirty : Bool)
      → is_dirty state ≡ dirty
      → Distinct d.dirty_since
      → d.dirty_players ≡ total one d.dirty_since
      → d.slots ≡ n + 1
      → (d' : Dirty) × (finish_logic is_dirty d id (cell slot) (not slot)
          ≡ some (d', cell dirty, dirty))
        × (d'.slots ≡ n + count dirty)
        × Marked id d d' dirty
  unfolding finish_logic drop_permit
  finish_logic_lem n true true h distinct counted slots =
      let (d', e, slots', m) = refresh_dirty_lem n true true h refl distinct counted slots in
      (d', rw h (rw e refl), slots', m)
  finish_logic_lem n true false h distinct counted slots =
      let (d', e, slots', m) = refresh_dirty_lem n true false h refl distinct counted slots in
      (d', rw h (rw e refl), slots', m)
  finish_logic_lem n false true h distinct counted slots =
      let (d', e, slots', m) = refresh_dirty_lem n true true h refl distinct counted slots in
      (d', rw h (rw e refl), slots', m)
  finish_logic_lem n false false h distinct counted slots =
      let (d', e, slots', m) =
        refresh_dirty_lem (n + 1) false false h refl distinct counted (omega (arith, slots)) in
      (
        record d' { slots = d'.slots - 1 },
        rw h (rw e (rw (release-some d' (omega (arith, slots'))) refl)),
        omega (arith, slots'),
        record {
          own = m.own;
          others = m.others;
          distinct = m.distinct;
          counted = m.counted;
          same_max = m.same_max;
        },
      )

module _ {P : Type 0} (is_dirty : P → Bool) (d : Dirty) (id : ℕ) (n : ℕ) where
  unmoved :
      (dirty : Bool) (slots : ℕ)
      → Distinct d.dirty_since
      → d.dirty_players ≡ total one d.dirty_since
      → is_some (get id d.dirty_since) ≡ dirty
      → Marked id d (record d { slots = slots }) dirty
  unmoved dirty slots distinct counted own = record {
    own = own;
    others = λ j e. refl;
    distinct = distinct;
    counted = counted;
    same_max = refl;
  }

  prepare-IsStep :
      (state : P) (slot : Bool)
      → IsGood is_dirty id d (record { state = state; dirty_slot = slot; gate = Gate.free })
      → d.slots ≡ n + count slot
      → let r = prepare d (record { state = state; dirty_slot = slot; gate = Gate.free }) in
        IsStep is_dirty id n d r.0 r.1
  unfolding prepare acquire
  prepare-IsStep state true g slots = record {
    slot = g.slot;
    gate = refl;
    slots = omega (arith, slots);
    few = g.few;
    marked = unmoved _ _ g.distinct g.counted g.own;
  }
  prepare-IsStep state false g slots = elim (Bool-cases (ltb d.slots d.max)) [
    | inl h ↦ rw h (record {
      slot = g.slot;
      gate = refl;
      slots = omega (arith, slots);
      few = ground arith;
      marked = unmoved _ _ g.distinct g.counted g.own;
    })
    | inr h ↦ rw h (record {
      slot = g.slot;
      gate = refl;
      slots = omega (arith, slots);
      few = g.few;
      marked = unmoved _ _ g.distinct g.counted g.own;
    })
  ]

  fail_preload-IsStep :
      (state : P) (slot r : Bool)
      → IsGood is_dirty id d (record { state = state; dirty_slot = slot; gate = prepared r })
      → d.slots ≡ n + (count slot + count r)
      → (d' : Dirty) × (p' : PlayerCell P) × (fail_preload d
            (record { state = state; dirty_slot = slot; gate = prepared r })
            r
          ≡ some (d', p'))
        × IsStep is_dirty id n d d' p'
  unfolding fail_preload drop_permit
  fail_preload-IsStep state slot true g slots = (
    record d { slots = d.slots - 1 },
    record { state = state; dirty_slot = slot; gate = Gate.free },
    rw (release-some d (omega (arith, slots)), fail_preload) refl,
    record {
      slot = g.slot;
      gate = refl;
      slots = omega (arith, slots);
      few = omega (arith, g.few);
      marked = unmoved _ _ g.distinct g.counted g.own;
    },
  )
  fail_preload-IsStep state slot false g slots = (
    _,
    _,
    refl,
    record {
      slot = g.slot;
      gate = refl;
      slots = omega (arith, slots);
      few = g.few;
      marked = unmoved _ _ g.distinct g.counted g.own;
    },
  )

  -- `finish_logic`, and the save that it asks for.
  executed :
      (old state : P) (slot dirty : Bool)
      → is_dirty state ≡ dirty
      → IsGood is_dirty id d (record { state = old; dirty_slot = slot; gate = prepared (not slot) })
      → d.slots ≡ n + 1
      → (d' : Dirty) × (p' : PlayerCell P) × (execute is_dirty d id
            (record { state = old; dirty_slot = slot; gate = prepared (not slot) })
            (not slot)
            state
          ≡ some (d', p'))
        × IsStep is_dirty id n d d' p'
  unfolding execute
  executed old state slot true h g slots =
      let (d', e, slots', m) =
        finish_logic_lem is_dirty d id state (prepared (not slot)) n slot true h g.distinct
          g.counted slots in
      (
        d',
        record { state = state; dirty_slot = true; gate = Gate.saving },
        rw (e, execute) refl,
        record {
          slot = sym h;
          gate = refl;
          slots = omega (arith, slots');
          few = omega (arith, slots', slots, g.few);
          marked = rw h m;
        },
      )
  executed old state slot false h g slots =
      let (d', e, slots', m) =
        finish_logic_lem is_dirty d id state (prepared (not slot)) n slot false h g.distinct
          g.counted slots in
      (
        d',
        record { state = state; dirty_slot = false; gate = Gate.free },
        rw (e, execute) refl,
        record {
          slot = sym h;
          gate = refl;
          slots = omega (arith, slots');
          few = omega (arith, slots', slots, g.few);
          marked = rw h m;
        },
      )

  execute-IsStep :
      (old state : P) (slot r : Bool)
      → IsGood is_dirty id d (record { state = old; dirty_slot = slot; gate = prepared r })
      → d.slots ≡ n + (count slot + count r)
      → (d' : Dirty) × (p' : PlayerCell P) × (execute is_dirty d id
            (record { state = old; dirty_slot = slot; gate = prepared r })
            r
            state
          ≡ some (d', p'))
        × IsStep is_dirty id n d d' p'
  execute-IsStep old state true false g slots =
      executed old state true (is_dirty state) refl g (omega (arith, slots))
  execute-IsStep old state false true g slots =
      executed old state false (is_dirty state) refl g (omega (arith, slots))
  execute-IsStep old state true true g slots = let gate = g.gate in absurd (cc)
  execute-IsStep old state false false g slots = let gate = g.gate in absurd (cc)

  begin_save-IsStep :
      (state : P) (slot : Bool)
      → IsGood is_dirty id d (record { state = state; dirty_slot = slot; gate = Gate.free })
      → d.slots ≡ n + count slot
      → IsStep is_dirty id n d d
          (begin_save is_dirty (record { state = state; dirty_slot = slot; gate = Gate.free }))
  unfolding begin_save
  begin_save-IsStep state slot g slots = elim (Bool-cases (is_dirty state)) [
    | inl h ↦ rw h (record {
      slot = g.slot;
      gate = g.slot ∙ h;
      slots = omega (arith, slots);
      few = g.few;
      marked = unmoved _ _ g.distinct g.counted g.own;
    })
    | inr h ↦ rw h (record {
      slot = g.slot;
      gate = refl;
      slots = omega (arith, slots);
      few = g.few;
      marked = unmoved _ _ g.distinct g.counted g.own;
    })
  ]

  end_save-IsStep :
      (old state : P) (slot : Bool)
      → IsGood is_dirty id d (record { state = old; dirty_slot = slot; gate = Gate.saving })
      → d.slots ≡ n + count slot
      → (d' : Dirty) × (p' : PlayerCell P) × (end_save is_dirty d id
            (record { state = old; dirty_slot = slot; gate = Gate.saving })
            state
          ≡ some (d', p'))
        × IsStep is_dirty id n d d' p'
  unfolding end_save
  end_save-IsStep old state true g slots =
      let (d', e, slots', m) =
        refresh_dirty_lem is_dirty d id state Gate.saving n true (is_dirty state) refl refl
          g.distinct g.counted slots in
      (
        d',
        record { state = state; dirty_slot = is_dirty state; gate = Gate.free },
        rw (e, end_save) refl,
        record {
          slot = refl;
          gate = refl;
          slots = omega (arith, slots');
          few = ground (arith, slots, slots', g.few);
          marked = m;
        },
      )
  end_save-IsStep old state false g slots = let gate = g.gate in absurd (cc)

  -- Whatever happens to a good cell.
  unchanged :
      (p : PlayerCell P)
      → IsGood is_dirty id d p
      → d.slots ≡ n + held p
      → IsStep is_dirty id n d d p
  unchanged p g slots = record {
    slot = g.slot;
    gate = g.gate;
    slots = slots;
    few = g.few;
    marked = unmoved _ _ g.distinct g.counted g.own;
  }

  pub act-IsStep :
      (old : P) (slot : Bool) (gate : Gate) (a : Act P)
      → IsGood is_dirty id d (record { state = old; dirty_slot = slot; gate = gate })
      → d.slots ≡ n + held (record { state = old; dirty_slot = slot; gate = gate })
      → (d' : Dirty) × (p' : PlayerCell P) × (act is_dirty d id
            (record { state = old; dirty_slot = slot; gate = gate })
            gate
            a
          ≡ some (d', p'))
        × IsStep is_dirty id n d d' p'
  unfolding act
  act-IsStep old slot Gate.free prepares g slots =
      (_, _, refl, prepare-IsStep old slot g (omega (arith, slots)))
  act-IsStep old slot Gate.free begins_save g slots =
      (_, _, refl, begin_save-IsStep old slot g (omega (arith, slots)))
  act-IsStep old slot (prepared true) fails_preload g slots =
      fail_preload-IsStep old slot true g slots
  act-IsStep old slot (prepared false) fails_preload g slots =
      fail_preload-IsStep old slot false g slots
  act-IsStep old slot (prepared true) (executes state) g slots =
      execute-IsStep old state slot true g slots
  act-IsStep old slot (prepared false) (executes state) g slots =
      execute-IsStep old state slot false g slots
  act-IsStep old slot Gate.saving (ends_save state) g slots =
      end_save-IsStep old state slot g (omega (arith, slots))
  act-IsStep old slot Gate.free fails_preload g slots = (_, _, refl, unchanged _ g slots)
  act-IsStep old slot Gate.free (executes s) g slots = (_, _, refl, unchanged _ g slots)
  act-IsStep old slot Gate.free (ends_save s) g slots = (_, _, refl, unchanged _ g slots)
  act-IsStep old slot (prepared r) prepares g slots = (_, _, refl, unchanged _ g slots)
  act-IsStep old slot (prepared r) begins_save g slots = (_, _, refl, unchanged _ g slots)
  act-IsStep old slot (prepared r) (ends_save s) g slots = (_, _, refl, unchanged _ g slots)
  act-IsStep old slot Gate.saving prepares g slots = (_, _, refl, unchanged _ g slots)
  act-IsStep old slot Gate.saving fails_preload g slots = (_, _, refl, unchanged _ g slots)
  act-IsStep old slot Gate.saving begins_save g slots = (_, _, refl, unchanged _ g slots)
  act-IsStep old slot Gate.saving (executes s) g slots = (_, _, refl, unchanged _ g slots)
