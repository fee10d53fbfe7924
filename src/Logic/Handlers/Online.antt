-- ===== src/Logic/Handlers/Online.antt =====
-- The count of players online under handlers of a player that run one after another.
use xkk.Common.{
  ℕ, ◌+◌, ◌-◌, ◌<◌, ◌^◌, ◌≡◌, refl, ap, ◌∙◌, inl, inr, Bool, true, false, not, ◌&&◌, ◌||◌, Option,
  none, some, List, [], ◌∷◌, arith, is_some, Bool-cases, Option-cases,
}
use xkk.Common.Int.{ℤ, pos, leb_ℤ, eqb_ℤ}
use xkk.Gate.Gateway.Online.{increment_pos, decrement_pos}
use xkk.Protocol.Status.{error_status}
use xkk.Protocol.Code
use xkk.Gate.Gateway.{LogicLoginReq, increment}
use xkk.Logic.Player.{PlayerSession, PlayerData, LogicLoginRsp, login, disconnect}
use xkk.Logic.Handlers.{
  Outcome, rejected, failed, executed, use_player, Head, KickSessionReq, kick_old, Server, kicks_of,
  login_with, login_failed, invalid_login, disconnected, disconnect_player, finish_login,
  handle_login, handle_disconnect,
}

pub data Event : Type 0 where
  logs_in : Head → LogicLoginReq → Outcome → Bool → Outcome → Event
  disconnects : ℤ → ℤ → ℤ → Outcome → Event

unfoldable pub step : ℤ → Server → Event → Option Server
step logic_id server (logs_in head request outcome owner_saved undo) =
    elim (handle_login logic_id head request outcome owner_saved undo server) [
      | none ↦ none
      | some (server', kicks, rsp) ↦ some server'
    ]
step logic_id server (disconnects gid gate_id player_session outcome) =
    some (handle_disconnect gid gate_id player_session outcome server)

unfoldable pub run : ℤ → Server → List Event → Option Server
run logic_id server [] = some server
run logic_id server (event ∷ events) = elim (step logic_id server event) [
  | none ↦ none
  | some server' ↦ run logic_id server' events
]

abbrev pub online : Option PlayerSession → ℕ
online none = 0
online (some session) = 1

abbrev pub positive : Option PlayerSession → Bool
positive none = true
positive (some session) = not (leb_ℤ session.session_id (pos 0))

-- A call that is executed is saved.
abbrev pub saved : Outcome → Bool
saved (executed (some text)) = false
saved _ = true

abbrev pub all_saved : Event → Bool
all_saved (logs_in head request outcome owner_saved undo) = saved outcome && saved undo
all_saved (disconnects gid gate_id player_session outcome) = saved outcome

abbrev pub AllSaved : List Event → Type 0
AllSaved [] = Unit {0}
AllSaved (event ∷ events) = (all_saved event ≡ true) × AllSaved events

-- The count is that of the other players online and of this one, whose session, if any, is positive.
pub record IsBalanced (others : ℕ) (server : Server) : Type 0 where
  pub counted : server.online_count ≡ pos (others + online server.player.session)
  pub session : positive server.player.session ≡ true

module _ (others : ℕ) (few : others < 2 ^ 31 - 2) (player : PlayerData) (dirty : Bool) where
  abbrev server_with : Option PlayerSession → ℤ → Server
  server_with session count = record {
    player = record { player = player; session = session; dirty = dirty };
    online_count = count;
  }

  disconnected_lem :
      (session : Option PlayerSession) (gate_id session_id : ℤ)
      → positive session ≡ true
      → IsBalanced others (
          disconnected (pos (others + online session)) (
            use_player
              (executed none)
              (server_with session (pos 0)).player
              (disconnect (server_with session (pos 0)).player gate_id session_id)))
  unfolding use_player disconnected disconnect
  disconnected_lem none gate_id session_id p = record { counted = refl; session = refl }
  disconnected_lem (some c) gate_id session_id p =
      elim (Bool-cases (eqb_ℤ c.gate_id gate_id && eqb_ℤ c.session_id session_id)) [
        | inl e ↦ rw e (record {
          counted = decrement_pos others (omega (arith, few)) ∙ ap pos (omega arith);
          session = refl;
        })
        | inr e ↦ rw e (record { counted = refl; session = p })
      ]

  disconnect_player-IsBalanced :
      (outcome : Outcome) (gate_id session_id : ℤ) (session : Option PlayerSession) (count : ℤ)
      → saved outcome ≡ true
      → IsBalanced others (server_with session count)
      → IsBalanced others (disconnect_player outcome gate_id session_id (server_with session count))
  unfolding disconnect_player use_player disconnected
  disconnect_player-IsBalanced (rejected r) gate_id session_id session count h b = b
  disconnect_player-IsBalanced (failed e) gate_id session_id session count h b = b
  disconnect_player-IsBalanced (executed (some text)) gate_id session_id session count h b =
      absurd (cc)
  disconnect_player-IsBalanced (executed none) gate_id session_id session count h b =
      rw b.counted (disconnected_lem session gate_id session_id b.session)

  finish_login-IsBalanced :
      (logic_id : ℤ) (request : LogicLoginReq) (session : Option PlayerSession) (count : ℤ)
      (owner_saved : Bool) (undo : Outcome)
      → leb_ℤ request.player_session (pos 0) ≡ false
      → saved undo ≡ true
      → IsBalanced others (server_with session count)
      → IsBalanced others
          (finish_login request owner_saved undo count (
            use_player
              (executed none)
              (server_with session count).player
              (login_with logic_id request (server_with session count).player))).0
  unfolding finish_login use_player login_with login
  finish_login-IsBalanced logic_id request none count true undo p u b = rw b.counted (record {
    counted = ap increment (ap pos (omega arith)) ∙ increment_pos others (omega (arith, few));
    session = ground arith;
  })
  finish_login-IsBalanced logic_id request (some old) count true undo p u b = record {
    counted = b.counted;
    session = ground arith;
  }
  finish_login-IsBalanced logic_id request none count false undo p u b =
      disconnect_player-IsBalanced undo request.gate_id request.player_session _ _ u (
        rw b.counted (record {
          counted = ap increment (ap pos (omega arith)) ∙ increment_pos others (omega (arith, few));
          session = ground arith;
        }))
  finish_login-IsBalanced logic_id request (some old) count false undo p u b =
      disconnect_player-IsBalanced undo request.gate_id request.player_session _ _ u
        (record { counted = b.counted; session = ground arith })

  use_login-IsBalanced :
      (logic_id : ℤ) (request : LogicLoginReq) (session : Option PlayerSession) (count : ℤ)
      (outcome : Outcome) (owner_saved : Bool) (undo : Outcome)
      → leb_ℤ request.player_session (pos 0) ≡ false
      → saved outcome && saved undo ≡ true
      → IsBalanced others (server_with session count)
      → IsBalanced others
          (finish_login request owner_saved undo count (
            use_player outcome
              (server_with session count).player
              (login_with logic_id request (server_with session count).player))).0
  unfolding finish_login use_player
  use_login-IsBalanced logic_id request session count (rejected r) owner_saved undo p u b = b
  use_login-IsBalanced logic_id request session count (failed e) owner_saved undo p u b = b
  use_login-IsBalanced logic_id request session count (executed (some text)) owner_saved undo p u
        b =
      absurd (cc)
  use_login-IsBalanced logic_id request session count (executed none) owner_saved undo p u b =
      finish_login-IsBalanced logic_id request session count owner_saved undo p u b

  -- The route of the older session is positive.
  kicks_of-some :
      (outcome : Outcome) (request : LogicLoginReq) (session : Option PlayerSession)
      → leb_ℤ request.gid (pos 0) ≡ false
      → positive session ≡ true
      → is_some (kicks_of outcome request session) ≡ true
  unfolding kicks_of kick_old
  kicks_of-some (rejected r) request session g p = refl
  kicks_of-some (failed e) request session g p = refl
  kicks_of-some (executed saved) request none g p = refl
  kicks_of-some (executed saved) request (some old) g p = ground arith

positive_gid :
    (head : Head) (request : LogicLoginReq)
    → invalid_login head request ≡ false
    → leb_ℤ request.gid (pos 0) ≡ false
unfolding invalid_login
positive_gid head request v = ground arith

positive_session :
    (head : Head) (request : LogicLoginReq)
    → invalid_login head request ≡ false
    → leb_ℤ request.player_session (pos 0) ≡ false
unfolding invalid_login
positive_session head request v = ground arith

module _ (logic_id : ℤ) (others : ℕ) (few : others < 2 ^ 31 - 2) where
  module _ (head : Head) (request : LogicLoginReq) (outcome : Outcome) (owner_saved : Bool)
      (undo : Outcome) (server : Server) where
    handle_login_refused :
        invalid_login head request ≡ true
        → handle_login logic_id head request outcome owner_saved undo server
          ≡ some
              (server, [], login_failed (error_status Code.invalid_argument "invalid Logic login"))
    unfolding handle_login
    handle_login_refused v = rw v refl

    abbrev after_login : Server × LogicLoginRsp
    after_login =
        finish_login request owner_saved undo server.online_count
          (use_player outcome server.player (login_with logic_id request server.player))

    handle_login_lem :
        (kicks : List KickSessionReq)
        → invalid_login head request ≡ false
        → kicks_of outcome request server.player.session ≡ some kicks
        → handle_login logic_id head request outcome owner_saved undo server
          ≡ some (after_login.0, kicks, after_login.1)
    unfolding handle_login
    handle_login_lem kicks v k = rw v (rw k refl)

  login_step :
      (head : Head) (request : LogicLoginReq) (outcome : Outcome) (owner_saved : Bool)
      (undo : Outcome) (server : Server)
      → saved outcome && saved undo ≡ true
      → IsBalanced others server
      → (server' : Server) × (step logic_id server (logs_in head request outcome owner_saved undo)
          ≡ some server')
        × IsBalanced others server'
  unfolding step
  login_step head request outcome owner_saved undo server h b =
      elim (Bool-cases (invalid_login head request)) [
        | inl v ↦ (
          server,
          rw (handle_login_refused head request outcome owner_saved undo server v, step) refl,
          b,
        )
        | inr v ↦
            let gid : leb_ℤ request.gid (pos 0) ≡ false = positive_gid head request v in
            let session : leb_ℤ request.player_session (pos 0) ≡ false =
              positive_session head request v in
            let kicked =
              kicks_of-some others few server.player.player server.player.dirty outcome request
                server.player.session gid b.session in
            elim (Option-cases (kicks_of outcome request server.player.session)) [
              | inl k ↦ absurd (cc)
              | inr (kicks, k) ↦ (
                (after_login head request outcome owner_saved undo server).0,
                rw (handle_login_lem head request outcome owner_saved undo server kicks v k, step)
                    refl,
                use_login-IsBalanced others few server.player.player server.player.dirty logic_id
                    request server.player.session server.online_count outcome owner_saved undo
                    session h b,
              )
            ]
      ]

  step_keeps :
      (server : Server) (event : Event)
      → all_saved event ≡ true
      → IsBalanced others server
      → (server' : Server) × (step logic_id server event ≡ some server') × IsBalanced others server'
  unfolding step handle_disconnect
  step_keeps server (logs_in head request outcome owner_saved undo) h b =
      login_step head request outcome owner_saved undo server h b
  step_keeps server (disconnects gid gate_id player_session outcome) h b =
      elim (Bool-cases
        (leb_ℤ gid (pos 0) || leb_ℤ gate_id (pos 0) || leb_ℤ player_session (pos 0))) [
          | inl v ↦ (server, rw v refl, b)
          | inr v ↦ (
            _,
            refl,
            rw v (
                disconnect_player-IsBalanced others few server.player.player server.player.dirty
                  outcome gate_id player_session server.player.session server.online_count h b),
          )
        ]

  -- Where every call that is executed is saved, and each handler ends before the next one begins: whatever
  -- logins and disconnects of a player come, with whatever failures of the runtime and of Redis, none panics, and the count of players
  -- online stays that of the other players and of this one.
  run-IsBalanced :
      (server : Server) (events : List Event)
      → AllSaved events
      → IsBalanced others server
      → (server' : Server) × (run logic_id server events ≡ some server') × IsBalanced others server'
  unfolding run
  run-IsBalanced server [] h b = (server, refl, b)
  run-IsBalanced server (event ∷ events) (h, hs) b =
      let (next, steps, b') = step_keeps server event h b in
      let (server', runs, b'') = run-IsBalanced next events hs b' in
      (server', rw (steps, run) runs, b'')
