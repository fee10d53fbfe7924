-- ===== src/Logic/Handlers/Counter.antt =====
-- The counter of players online under handlers that run at once: the call of a handler in the runtime and its
-- change of the counter are two steps, and the steps of all handlers come in any order.
use xkk.Common.{
  ℕ, ◌+◌, ◌-◌, ◌<◌, ◌≤◌, ◌^◌, ◌≡◌, Bool, true, false, not, ◌||◌, Option, none, some, List, [], ◌∷◌,
  arith, if◌then◌else◌, eqb, Result, ok, err,
}
use xkk.Common.Int.{ℤ, pos, leb_ℤ}
use xkk.Common.Keys.{Map, get, insert, int_key}
use xkk.Common.Keys.Totals.{total}
use xkk.Protocol.Status.{Status}
use xkk.Gate.Gateway.{LogicLoginReq, increment, decrement}
use xkk.Logic.Player.{PlayerState, LoginResult, disconnect}
use xkk.Logic.Handlers.{Outcome, use_player, login_with}
use xkk.Logic.Handlers.Online.{online, saved}

-- `executes_login` is the call of a login, `executes_disconnect` that of a disconnect or of a login that is
-- undone; `counts_up` and `counts_down` are what the handlers do to the counter afterwards.
pub data Part : Type 0 where
  executes_login : ℤ → LogicLoginReq → Outcome → Part
  executes_disconnect : ℤ → ℤ → ℤ → Outcome → Part
  counts_up counts_down : Part

-- `ups` and `downs` are the changes of the counter that handlers have still to make; `floored` records that
-- the counter was 0 when it was to go down.
pub record Counter : Type 0 where
  pub players : Map ℤ PlayerState
  pub online_count : ℤ
  pub ups : ℕ
  pub downs : ℕ
  pub floored : Bool

login_ups : Result LoginResult Status → ℕ
login_ups (ok result) = if result.became_online then 1 else 0
login_ups (err status) = 0

disconnect_downs : Result Bool Status → ℕ
disconnect_downs (ok true) = 1
disconnect_downs _ = 0

unfoldable pub step : ℤ → Counter → Part → Counter
unfolding login_ups disconnect_downs
step logic_id c (executes_login gid request outcome) = elim (get gid c.players) [
  | none ↦ c
  | some p ↦
      let (after, result) = use_player outcome p (login_with logic_id request p) in
      record c { players = insert gid after c.players; ups = c.ups + login_ups result }
]
step logic_id c (executes_disconnect gid gate_id session_id outcome) = elim (get gid c.players) [
  | none ↦ c
  | some p ↦
      let (after, result) = use_player outcome p (disconnect p gate_id session_id) in
      record c { players = insert gid after c.players; downs = c.downs + disconnect_downs result }
]
step logic_id c counts_up =
    if eqb c.ups 0 then c else record c { online_count = increment c.online_count; ups = c.ups - 1 }
step logic_id c counts_down = if eqb c.downs 0 then c else record c {
  online_count = decrement c.online_count;
  downs = c.downs - 1;
  floored = c.floored || leb_ℤ c.online_count (pos 0);
}

unfoldable pub run : ℤ → Counter → List Part → Counter
run logic_id c [] = c
run logic_id c (part ∷ parts) = run logic_id (step logic_id c part) parts

-- A call that is executed is saved.
abbrev pub AllSaved : List Part → Type 0
AllSaved [] = Unit {0}
AllSaved (executes_login gid request outcome ∷ parts) = (saved outcome ≡ true) × AllSaved parts
AllSaved (executes_disconnect gid gate_id session_id outcome ∷ parts) =
    (saved outcome ≡ true) × AllSaved parts
AllSaved (_ ∷ parts) = AllSaved parts

abbrev pub is_online : PlayerState → ℕ
is_online p = online p.session

-- The counter with the changes that are still to come is not below the number of players online, and is
-- equal to it if it never was 0 when it was to go down.
pub record Covers (c : Counter) : Type 0 where
  pub count : ℕ
  pub counted : c.online_count ≡ pos count
  pub covers : total is_online c.players + c.downs ≤ count + c.ups
  pub exact : c.floored ≡ false → total is_online c.players + c.downs ≡ count + c.ups

-- The counter with the changes to come grows by at most one in a step.
abbrev Grown : (c c' : Counter) → Covers c → Type 0
Grown c c' i = (i' : Covers c') × (i'.count + c'.ups ≤ i.count + c.ups + 1)

module _ (logic_id : ℤ) (c : Counter) (i : Covers c) (room : i.count + c.ups + 2 < 2 ^ 31) where
  same : Grown c c i
  same = (i, omega arith)
