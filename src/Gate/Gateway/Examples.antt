-- ===== src/Gate/Gateway/Examples.antt =====
-- A gate at a concrete net: a login, a kick of another session, a second login and a disconnect.
use xkk.Common.{
  ℕ, ◌+◌, ◌≡◌, ◌≢◌, refl, Bool, true, false, none, some, List, [], ◌∷◌, arith, Result, ok,
}
use xkk.Common.Int.{ℤ, pos}
use xkk.Protocol.Status.{Status, ok_status}
use xkk.Protocol.Message.{MsgId, RouteTarget, route_target, as_u16, from_u16}
use xkk.Protocol.Message
use xkk.Gate.Session.{Net, Routes, hard_limits}
use xkk.Gate.Gateway.{Reply}
use xkk.Gate.Gateway.Login.{PendingLogin}
use xkk.Gate.Gateway.Forward.{dispatch, dispatch_id}
use xkk.Gate.Gateway.Dispatch.{dispatch_follows_routes}
use xkk.Gate.Gateway.Online.{Counted}
use xkk.Gate.Gateway.Runs.{
  Action, login_replied, kick_asked, disconnected, started, run, online_count_is_exact,
}

-- A connection is its session id, and a packet its message id and its numbers.
abbrev net : Net ℤ (ℕ × ℕ × ℕ) (Reply ℕ) (Unit {0})
net = record {
  conn_session_id = λ c. c;
  system_msg_id_end = 100;
  encode_message = λ msgid seq ack m. ok (msgid, seq, ack);
}

abbrev routes : Routes
routes = record { logic_id = pos 1; public_id = pos 2 }

abbrev pending : ℤ → PendingLogin
pending session = record {
  online = record {
    account = [];
    gid = pos 7;
    token = [];
    session = pos 0;
    login_time = pos 0;
    logout_time = pos 0;
    public_id = pos 0;
    gate_id = pos 0;
    logic_id = pos 0;
  };
  routes = routes;
  call = record {
    gid = pos 7;
    gate_id = pos 3;
    player_session = session;
    device_id = [];
    reconnect = false;
  };
}

abbrev login : ℤ → Action ℤ (ℕ × ℕ × ℕ) ℕ ℕ
login session =
    login_replied
      (record { conn = session; session_id = session; user_id = none; seq = 1; ack = 0 }) (pos 7)
      (pending session) (some (record { status = some ok_status; player = none; items = [] })) true
      (pos 100)

abbrev day : List (Action ℤ (ℕ × ℕ × ℕ) ℕ ℕ)
day =
    login (pos 11)
    ∷ kick_asked (pos 7) (pos 12) (pos 6) [] 5
    ∷ login (pos 13)
    ∷ disconnected (pos 11) (some (pos 7)) 9
    ∷ []

abbrev no_backpressure : Unit {0} → Bool
no_backpressure e = false

abbrev accepts : ℕ × ℕ × ℕ → Result (Unit {0}) (Unit {0})
accepts p = ok tt

abbrev status_code : Status → ℕ
status_code s = 0

online_count_is_exact_example :
    Counted (run net hard_limits no_backpressure accepts (pos 3) status_code started day)
online_count_is_exact_example =
    online_count_is_exact net hard_limits no_backpressure accepts (pos 3) status_code day
      (omega arith)

dispatch_follows_routes_example :
    (m : MsgId) × (from_u16 (as_u16 Message.mail_read_req) ≡ some m)
    × (route_target m ≡ some RouteTarget.public)
    × (RouteTarget.public ≢ RouteTarget.gate)
    × (as_u16 Message.mail_read_rsp ≡ as_u16 Message.mail_read_req + 1)
unfolding dispatch dispatch_id from_u16 as_u16
dispatch_follows_routes_example =
    (dispatch_follows_routes (as_u16 Message.mail_read_req) RouteTarget.public
        Message.mail_read_rsp).0
      refl
