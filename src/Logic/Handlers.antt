-- ===== src/Logic/Handlers.antt =====
-- The handlers of service/logic/src/player.rs: what they do to a player, to the count of players online
-- and to the Gate of an older session, and what they answer. What the runtime does with each call
-- (Runtime) is given to them, as are the answers of Redis and the lengths of the encoded requests.
-- `none` is a panic.
pub mod Online
pub mod Counter
mod Examples
use Prim.Native.String.{String}
use xkk.Common.{
  ℕ, suc, ◌+◌, ◌-◌, ◌/◌, Bool, true, false, not, ◌&&◌, ◌||◌, Option, none, some, List, [], ◌∷◌,
  if◌then◌else◌, ltb, eqb, unwrap_or, Result, ok, err,
}
use xkk.Common.Int.{ℤ, pos, pos_part, leb_ℤ}
use xkk.Common.Keys.{◌==◌, int_key}
use xkk.Protocol.Status.{Status, ok_status, error_status}
use xkk.Protocol.Code
use xkk.Common.Bytes.{Bytes}
use xkk.Logic.Player.{
  PlayerInfo, PlayerData, new, default_player, normalize_player, Item, PlayerSession, PlayerState,
  LogicLoginRsp, LoginResult, login, disconnect, UseItemRsp, use_item, ItemsRsp, CheckItemsRsp,
  Iteration, add_items, remove_items, check_items,
}
use xkk.Logic.Runtime.{RejectReason}
use xkk.Gate.Gateway.{LogicLoginReq, increment, decrement}

-- `LogicCallError`; the first three carry the text of the error.
pub data LogicCallError : Type 0 where
  load preload persistence : String → LogicCallError
  dirty_capacity runtime_stopped : LogicCallError

-- What becomes of a call: the runtime rejects it, it fails before the player is touched, or it is
-- executed, and the text of the error is there if the player could not be saved.
pub data Outcome : Type 0 where
  rejected : RejectReason → Outcome
  failed : LogicCallError → Outcome
  executed : Option String → Outcome

unfoldable pub reject_status : RejectReason → Status
reject_status RejectReason.calls = error_status Code.overloaded "Logic call capacity exhausted"
reject_status RejectReason.kib = error_status Code.overloaded "Logic retained bytes exhausted"
reject_status RejectReason.gid = error_status Code.overloaded "Logic player mailbox exhausted"
reject_status RejectReason.draining = error_status Code.overloaded "Logic is draining"

unfoldable pub call_status : LogicCallError → Status
call_status dirty_capacity = error_status Code.overloaded "Logic dirty-player capacity exhausted"
call_status runtime_stopped = error_status Code.temporarily_unavailable "Logic stopped"
call_status (load text) = error_status Code.internal text
call_status (preload text) = error_status Code.internal text
call_status (persistence text) = error_status Code.internal text

-- `await_logic` of a call of the runtime: what is left of the player, and the result.
unfoldable pub use_player :
    {R : Type 0} → Outcome → PlayerState → PlayerState × R → PlayerState × Result R Status
use_player (rejected reason) s after = (s, err (reject_status reason))
use_player (failed error) s after = (s, err (call_status error))
use_player (executed none) s (s', value) = (s', ok value)
use_player (executed (some text)) s (s', value) = (s', err (error_status Code.internal text))

-- The loader of `persistence`: what the store found, or an error, and whether it takes a new player.
unfoldable pub load_player :
    (ℤ → Bytes) → ℤ → Result (Option PlayerData) String → Option String → Result PlayerState String
load_player player_name gid (err error) failure = err error
load_player player_name gid (ok (some found)) failure =
    ok (new (normalize_player player_name gid found))
load_player player_name gid (ok none) none = ok (new (default_player player_name gid))
load_player player_name gid (ok none) (some error) = err error

-- The saver of `persistence`: the state is clean where the store took it.
unfoldable pub save_player : PlayerState → Bool → PlayerState
save_player s saved = if saved then record s { dirty = false } else s

-- `retained_kib` of a message of this length.
unfoldable pub retained_kib : ℕ → ℕ
retained_kib encoded_len = let kib = (encoded_len + 1_023) / 1_024 in if ltb 0 kib then kib else 1

-- The part of the context of a request that the handlers read; both are u64.
pub record Head : Type 0 where
  pub gid : ℕ
  pub player_session : ℕ

unfoldable pub valid_context_gid : Head → Option ℤ
valid_context_gid head =
    if ltb head.gid (suc 9_223_372_036_854_775_807) && ltb 0 head.gid && ltb 0 head.player_session
    then some (pos head.gid)
    else none

pub record KickSessionReq : Type 0 where
  pub gate_id : ℤ
  pub gid : ℤ
  pub player_session : ℤ
  pub code : ℤ
  pub reason : String

-- What the login does to the older session; the route of a session that is not positive is a panic.
unfoldable pub kick_old : LogicLoginReq → Option PlayerSession → Option (List KickSessionReq)
kick_old request none = some []
kick_old request (some old) =
    if not request.reconnect
      && (not (old.gate_id == request.gate_id) || not (old.session_id == request.player_session))
    then if leb_ℤ request.gid (pos 0) || leb_ℤ old.session_id (pos 0)
      then none
      else some (
          record {
            gate_id = old.gate_id;
            gid = request.gid;
            player_session = old.session_id;
            code = Code.session_replaced;
            reason = "session replaced";
          }
          ∷ [])
    else some []

-- The player that a handler is about, and the players of this Logic that are online.
pub record Server : Type 0 where
  pub player : PlayerState
  pub online_count : ℤ

unfoldable pub kicks_of :
    Outcome → LogicLoginReq → Option PlayerSession → Option (List KickSessionReq)
kicks_of (executed saved) request old = kick_old request old
kicks_of _ request old = some []

abbrev pub old_session : Option PlayerSession → LogicLoginRsp → ℤ × ℤ
old_session none response = (response.old_gate_id, response.old_player_session)
old_session (some old) response = (old.gate_id, old.session_id)

-- The call of the login, with the old session in its response.
unfoldable pub login_with : ℤ → LogicLoginReq → PlayerState → PlayerState × LoginResult
login_with logic_id request s =
    let (s', result) = login s request.gate_id request.player_session in
    let (old_gate_id, old_player_session) = old_session s.session result.response in
    (
      s',
      record result {
        response = record (result.response) {
          old_gate_id = old_gate_id;
          old_player_session = old_player_session;
          logic_id = logic_id;
        };
      },
    )

abbrev pub login_failed : Status → LogicLoginRsp
login_failed status = record {
  status = status;
  logic_id = pos 0;
  old_gate_id = pos 0;
  old_player_session = pos 0;
  player = none;
  items = [];
}

unfoldable pub invalid_login : Head → LogicLoginReq → Bool
invalid_login head request =
    leb_ℤ request.gid (pos 0)
    || leb_ℤ request.gate_id (pos 0)
    || leb_ℤ request.player_session (pos 0)
    || not (eqb head.gid (pos_part request.gid))
    || not (eqb head.player_session (pos_part request.player_session))

-- The end of a disconnect: the player is taken off the count where it was the current session.
unfoldable pub disconnected : ℤ → PlayerState × Result Bool Status → Server
disconnected online_count (player, ok true) = record {
  player = player;
  online_count = decrement online_count;
}
disconnected online_count (player, _) = record { player = player; online_count = online_count }

unfoldable pub disconnect_player : Outcome → ℤ → ℤ → Server → Server
disconnect_player outcome gate_id session_id server =
    disconnected server.online_count
      (use_player outcome server.player (disconnect server.player gate_id session_id))

-- The login after its call, where no other handler changes the counter before it ends: the save of the owner in Redis, which is undone by a disconnect where it fails.
unfoldable pub finish_login :
    LogicLoginReq
    → Bool
    → Outcome
    → ℤ
    → PlayerState × Result LoginResult Status
    → Server × LogicLoginRsp
finish_login request owner_saved undo online_count (player, err status) =
    (record { player = player; online_count = online_count }, login_failed status)
finish_login request owner_saved undo online_count (player, ok result) =
    let server : Server = record {
      player = player;
      online_count = if result.became_online then increment online_count else online_count;
    } in
    if owner_saved then (server, result.response) else (
      disconnect_player undo request.gate_id request.player_session server,
      login_failed (error_status Code.internal "Logic owner save failed"),
    )

-- The handler of `LogicLoginReq`, where no other handler comes between its calls; Counter takes its steps apart.
unfoldable pub handle_login :
    ℤ
    → Head
    → LogicLoginReq
    → Outcome
    → Bool
    → Outcome
    → Server
    → Option (Server × List KickSessionReq × LogicLoginRsp)
handle_login logic_id head request outcome owner_saved undo server =
    if invalid_login head request
    then some (server, [], login_failed (error_status Code.invalid_argument "invalid Logic login"))
    else elim (kicks_of outcome request server.player.session) [
      | none ↦ none
      | some kicks ↦
          let (server', rsp) =
            finish_login request owner_saved undo server.online_count
              (use_player outcome server.player (login_with logic_id request server.player)) in
          some (server', kicks, rsp)
    ]

-- The handler of `LogicDisconnectNtf`.
unfoldable pub handle_disconnect : ℤ → ℤ → ℤ → Outcome → Server → Server
handle_disconnect gid gate_id player_session outcome server =
    if leb_ℤ gid (pos 0) || leb_ℤ gate_id (pos 0) || leb_ℤ player_session (pos 0)
    then server
    else disconnect_player outcome gate_id player_session server

-- The response of a call, or the status of its failure.
unfoldable pub respond :
    {R : Type 0} → (Status → R) → PlayerState × Result R Status → PlayerState × R
respond failure (s, ok response) = (s, response)
respond failure (s, err status) = (s, failure status)

abbrev pub items_failed : Status → ItemsRsp
items_failed status = record { status = status; items = [] }

abbrev pub check_failed : Status → CheckItemsRsp
check_failed status = record { status = status; enough = false }

abbrev pub use_failed : Status → UseItemRsp
use_failed status = record { status = status; item = none }

-- The handler of `UseItemReq`, which a client sends on the route of its player.
unfoldable pub handle_use_item : Head → ℤ → ℤ → Outcome → PlayerState → PlayerState × UseItemRsp
handle_use_item head item_id count outcome s = elim (valid_context_gid head) [
  | none ↦ (s, use_failed (error_status Code.invalid_argument "missing player route"))
  | some gid ↦ respond use_failed (use_player outcome s (use_item s item_id count))
]

-- The requests of the services name the player; a route, if there is one, has to agree.
unfoldable pub invalid_route : Head → ℤ → Bool
invalid_route head gid =
    leb_ℤ gid (pos 0) || not (eqb head.gid 0) && not (eqb head.gid (pos_part gid))

module _ (iteration : Iteration) where
  unfoldable pub handle_add_items :
      Head → ℤ → List Item → Outcome → PlayerState → PlayerState × ItemsRsp
  handle_add_items head gid items outcome s =
      if invalid_route head gid
      then (s, items_failed (error_status Code.invalid_argument "invalid add-items route"))
      else respond items_failed (use_player outcome s (add_items iteration s items))

  unfoldable pub handle_remove_items :
      Head → ℤ → List Item → Outcome → PlayerState → Option (PlayerState × ItemsRsp)
  handle_remove_items head gid items outcome s =
      if invalid_route head gid
      then some (s, items_failed (error_status Code.invalid_argument "invalid remove-items route"))
      else elim (remove_items iteration s items) [
        | none ↦ none
        | some after ↦ some (respond items_failed (use_player outcome s after))
      ]

  unfoldable pub handle_check_items :
      Head → ℤ → List Item → Outcome → PlayerState → PlayerState × CheckItemsRsp
  handle_check_items head gid items outcome s =
      if invalid_route head gid
      then (s, check_failed (error_status Code.invalid_argument "invalid check-items route"))
      else respond check_failed (use_player outcome s (s, check_items iteration s items))
