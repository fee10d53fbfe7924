-- ===== src/Gate/Gateway/Forward.antt =====
-- `forward` and `handle_packet` of service/gate/src/gateway.rs: the requests that a gate passes on.
use xkk.Common.{ℕ, Bool, Option, none, some, List, [], ◌∷◌, Result, ok, err, unwrap_or}
use xkk.Common.Int.{ℤ}
use xkk.Protocol.Status.{Status, error_status}
use xkk.Protocol.Code
use xkk.Protocol.Message.{MsgId, RouteTarget, from_u16}
use xkk.Protocol.Message
use xkk.Gate.Session.{SessionConfig, Routes, RequestError, Net}
use xkk.Gate.Sessions.{Players, accept_request}
use xkk.Gate.Gateway.{GatewayState, Frame, Reply, business, Effect, close, call_routed, send_bound}

-- `unreachable!` where the target is the gate.
unfoldable pub server_id : RouteTarget → Routes → Option ℤ
server_id RouteTarget.logic routes = some routes.logic_id
server_id RouteTarget.public routes = some routes.public_id
server_id RouteTarget.gate routes = none

module _ {C P R Q X N : Type 0} (net : Net C P (Reply R) X) (config : SessionConfig)
    (backpressure : N → Bool) (deliver : P → Result (Unit {0}) N) (make_error : Status → R) where
  unfoldable pub forward_accepted :
      GatewayState C P
      → Frame C
      → RouteTarget
      → MsgId
      → Q
      → ℤ
      → ℕ
      → Players C P × Result Routes RequestError
      → GatewayState C P × List (Effect C P R Q)
  forward_accepted st frame target response_msgid request gid now
        (sessions, err RequestError.rate_limited) =
      (
        send_bound net config backpressure deliver (record st { sessions = sessions }) gid
            frame.session_id response_msgid
            (business (make_error (error_status Code.rate_limited "request rate exceeded"))) now,
        [],
      )
  forward_accepted st frame target response_msgid request gid now (sessions, err _) =
      (record st { sessions = sessions }, close frame.conn ∷ [])
  forward_accepted st frame target response_msgid request gid now (sessions, ok routes) = (
    record st { sessions = sessions },
    elim (server_id target routes) [
      | none ↦ []
      | some server ↦ call_routed target server gid frame.session_id request ∷ []
    ],
  )

  -- Up to the call of the service.
  unfoldable pub forward_request :
      GatewayState C P
      → Frame C
      → RouteTarget
      → MsgId
      → Q
      → ℕ
      → GatewayState C P × List (Effect C P R Q)
  unfolding forward_accepted server_id
  forward_request st frame target response_msgid request now = elim frame.user_id [
    | none ↦ (st, close frame.conn ∷ [])
    | some gid ↦
        forward_accepted st frame target response_msgid request gid now
          (accept_request st.sessions gid frame.session_id frame.seq frame.ack now config)
  ]

module _ {C P R X N : Type 0} (net : Net C P (Reply R) X) (config : SessionConfig)
    (backpressure : N → Bool) (deliver : P → Result (Unit {0}) N) (make_error : Status → R) where
  -- The response of the service, `none` for a call that failed.
  unfoldable pub forward_response :
      GatewayState C P → Frame C → ℤ → MsgId → Option R → ℕ → GatewayState C P
  forward_response st frame gid response_msgid response now =
      send_bound net config backpressure deliver st gid frame.session_id response_msgid
        (business (
          unwrap_or response
            (make_error (error_status Code.temporarily_unavailable "target service unavailable"))))
        now

-- What `handle_packet` does with a message id, whose body is still to be decoded.
pub data Dispatch : Type 0 where
  ack ping login reconnect logout refused : Dispatch
  forwarded : RouteTarget → MsgId → Dispatch

unfoldable pub dispatch_id : MsgId → Dispatch
dispatch_id Message.ack_ntf = ack
dispatch_id Message.ping_req = ping
dispatch_id Message.login_req = login
dispatch_id Message.reconnect_req = reconnect
dispatch_id Message.logout_req = logout
dispatch_id Message.player_info_req = forwarded RouteTarget.logic Message.player_info_rsp
dispatch_id Message.use_item_req = forwarded RouteTarget.logic Message.use_item_rsp
dispatch_id Message.mail_list_req = forwarded RouteTarget.public Message.mail_list_rsp
dispatch_id Message.mail_read_req = forwarded RouteTarget.public Message.mail_read_rsp
dispatch_id Message.mail_delete_req = forwarded RouteTarget.public Message.mail_delete_rsp
dispatch_id Message.mail_claim_req = forwarded RouteTarget.public Message.mail_claim_rsp
dispatch_id _ = refused

-- The head's message id, `none` for a packet that does not decode.
unfoldable pub dispatch : Option ℕ → Dispatch
unfolding dispatch_id
dispatch none = refused
dispatch (some msgid) = elim (from_u16 msgid) [ none ↦ refused | some id ↦ dispatch_id id ]
