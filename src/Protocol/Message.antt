-- ===== src/Protocol/Message.antt =====
-- protocol/src/message.rs with the message ids that proto/xkk.proto declares: their numbers, their
-- kinds, the messages that an outbox keeps, and the service that a client request is routed to.
pub mod Laws
use Prim.Native.String.{String}
use xkk.Common.{
  ℕ, suc, ◌-◌, ◌≡◌, Bool, true, false, not, ◌&&◌, Option, none, some, List, [], ◌∷◌, ltb, leb, eqb,
  if◌then◌else◌, length, drop,
}
use Prim.Native.Char.{Char, code}

pub data MsgId : Type 0 where
  unspecified player_info_req player_info_rsp use_item_req use_item_rsp mail_list_req : MsgId
  mail_list_rsp mail_read_req mail_read_rsp mail_delete_req mail_delete_rsp mail_claim_req : MsgId
  mail_claim_rsp mail_info_ntf add_items_req add_items_rsp remove_items_req remove_items_rsp : MsgId
  check_items_req check_items_rsp send_mail_req send_mail_rsp mail_push_ntf auth_login_req : MsgId
  auth_login_rsp auth_use_role_req auth_use_role_rsp gamer_info_req gamer_info_rsp ack_ntf : MsgId
  ping_req ping_rsp login_req login_rsp reconnect_req reconnect_rsp logout_req logout_rsp : MsgId
  kick_ntf logic_login_req logic_login_rsp logic_disconnect_ntf kick_session_req : MsgId
  kick_session_rsp : MsgId

unfoldable pub as_u16 : MsgId → ℕ
as_u16 unspecified = 0
as_u16 player_info_req = 100
as_u16 player_info_rsp = 101
as_u16 use_item_req = 102
as_u16 use_item_rsp = 103
as_u16 mail_list_req = 110
as_u16 mail_list_rsp = 111
as_u16 mail_read_req = 112
as_u16 mail_read_rsp = 113
as_u16 mail_delete_req = 114
as_u16 mail_delete_rsp = 115
as_u16 mail_claim_req = 116
as_u16 mail_claim_rsp = 117
as_u16 mail_info_ntf = 118
as_u16 add_items_req = 1000
as_u16 add_items_rsp = 1001
as_u16 remove_items_req = 1002
as_u16 remove_items_rsp = 1003
as_u16 check_items_req = 1004
as_u16 check_items_rsp = 1005
as_u16 send_mail_req = 1010
as_u16 send_mail_rsp = 1011
as_u16 mail_push_ntf = 1012
as_u16 auth_login_req = 2000
as_u16 auth_login_rsp = 2001
as_u16 auth_use_role_req = 2002
as_u16 auth_use_role_rsp = 2003
as_u16 gamer_info_req = 2100
as_u16 gamer_info_rsp = 2101
as_u16 ack_ntf = 3000
as_u16 ping_req = 3001
as_u16 ping_rsp = 3002
as_u16 login_req = 3003
as_u16 login_rsp = 3004
as_u16 reconnect_req = 3005
as_u16 reconnect_rsp = 3006
as_u16 logout_req = 3007
as_u16 logout_rsp = 3008
as_u16 kick_ntf = 3009
as_u16 logic_login_req = 3010
as_u16 logic_login_rsp = 3011
as_u16 logic_disconnect_ntf = 3012
as_u16 kick_session_req = 3013
as_u16 kick_session_rsp = 3014

unfoldable pub as_str_name : MsgId → String
as_str_name unspecified = "UNSPECIFIED"
as_str_name player_info_req = "PLAYER_INFO_REQ"
as_str_name player_info_rsp = "PLAYER_INFO_RSP"
as_str_name use_item_req = "USE_ITEM_REQ"
as_str_name use_item_rsp = "USE_ITEM_RSP"
as_str_name mail_list_req = "MAIL_LIST_REQ"
as_str_name mail_list_rsp = "MAIL_LIST_RSP"
as_str_name mail_read_req = "MAIL_READ_REQ"
as_str_name mail_read_rsp = "MAIL_READ_RSP"
as_str_name mail_delete_req = "MAIL_DELETE_REQ"
as_str_name mail_delete_rsp = "MAIL_DELETE_RSP"
as_str_name mail_claim_req = "MAIL_CLAIM_REQ"
as_str_name mail_claim_rsp = "MAIL_CLAIM_RSP"
as_str_name mail_info_ntf = "MAIL_INFO_NTF"
as_str_name add_items_req = "ADD_ITEMS_REQ"
as_str_name add_items_rsp = "ADD_ITEMS_RSP"
as_str_name remove_items_req = "REMOVE_ITEMS_REQ"
as_str_name remove_items_rsp = "REMOVE_ITEMS_RSP"
as_str_name check_items_req = "CHECK_ITEMS_REQ"
as_str_name check_items_rsp = "CHECK_ITEMS_RSP"
as_str_name send_mail_req = "SEND_MAIL_REQ"
as_str_name send_mail_rsp = "SEND_MAIL_RSP"
as_str_name mail_push_ntf = "MAIL_PUSH_NTF"
as_str_name auth_login_req = "AUTH_LOGIN_REQ"
as_str_name auth_login_rsp = "AUTH_LOGIN_RSP"
as_str_name auth_use_role_req = "AUTH_USE_ROLE_REQ"
as_str_name auth_use_role_rsp = "AUTH_USE_ROLE_RSP"
as_str_name gamer_info_req = "GAMER_INFO_REQ"
as_str_name gamer_info_rsp = "GAMER_INFO_RSP"
as_str_name ack_ntf = "ACK_NTF"
as_str_name ping_req = "PING_REQ"
as_str_name ping_rsp = "PING_RSP"
as_str_name login_req = "LOGIN_REQ"
as_str_name login_rsp = "LOGIN_RSP"
as_str_name reconnect_req = "RECONNECT_REQ"
as_str_name reconnect_rsp = "RECONNECT_RSP"
as_str_name logout_req = "LOGOUT_REQ"
as_str_name logout_rsp = "LOGOUT_RSP"
as_str_name kick_ntf = "KICK_NTF"
as_str_name logic_login_req = "LOGIC_LOGIN_REQ"
as_str_name logic_login_rsp = "LOGIC_LOGIN_RSP"
as_str_name logic_disconnect_ntf = "LOGIC_DISCONNECT_NTF"
as_str_name kick_session_req = "KICK_SESSION_REQ"
as_str_name kick_session_rsp = "KICK_SESSION_RSP"

abbrev pub all_msg_ids : List MsgId
all_msg_ids =
    unspecified ∷ player_info_req ∷ player_info_rsp ∷ use_item_req ∷ use_item_rsp ∷ mail_list_req
    ∷ mail_list_rsp ∷ mail_read_req ∷ mail_read_rsp ∷ mail_delete_req ∷ mail_delete_rsp
    ∷ mail_claim_req ∷ mail_claim_rsp ∷ mail_info_ntf ∷ add_items_req ∷ add_items_rsp
    ∷ remove_items_req ∷ remove_items_rsp ∷ check_items_req ∷ check_items_rsp ∷ send_mail_req
    ∷ send_mail_rsp ∷ mail_push_ntf ∷ auth_login_req ∷ auth_login_rsp ∷ auth_use_role_req
    ∷ auth_use_role_rsp ∷ gamer_info_req ∷ gamer_info_rsp ∷ ack_ntf ∷ ping_req ∷ ping_rsp
    ∷ login_req ∷ login_rsp ∷ reconnect_req ∷ reconnect_rsp ∷ logout_req ∷ logout_rsp ∷ kick_ntf
    ∷ logic_login_req ∷ logic_login_rsp ∷ logic_disconnect_ntf ∷ kick_session_req ∷ kick_session_rsp
    ∷ []

-- `MsgId::try_from`, which finds the constructor of a number.
find_id : ℕ → List MsgId → Option MsgId
unfolding as_u16
find_id value [] = none
find_id value (m ∷ ms) = if eqb (as_u16 m) value then some m else find_id value ms

drop_unspecified : Option MsgId → Option MsgId
drop_unspecified (some unspecified) = none
drop_unspecified m = m

unfoldable pub from_u16 : ℕ → Option MsgId
unfolding find_id drop_unspecified
from_u16 value = drop_unspecified (find_id value all_msg_ids)

pub data MessageKind : Type 0 where
  req rsp ntf : MessageKind

chars : String → List ℕ
chars String.[] = []
chars (String.◌∷◌ c s) = code c ∷ chars s

same : List ℕ → List ℕ → Bool
same [] [] = true
same (x ∷ xs) (y ∷ ys) = eqb x y && same xs ys
same _ _ = false

-- `str::ends_with`, on the characters.
ends_with : String → String → Bool
unfolding chars same
ends_with s suffix =
    let xs = chars s in
    let ys = chars suffix in
    leb (length ys) (length xs) && same (drop (length xs - length ys) xs) ys

unfoldable pub kind : MsgId → Option MessageKind
unfolding as_str_name ends_with
kind m =
    let name = as_str_name m in
    if ends_with name "_REQ"
    then some req
    else if ends_with name "_RSP"
    then some rsp
    else if ends_with name "_NTF"
    then some ntf
    else none

bypasses_outbox : Option MsgId → Bool
bypasses_outbox (some ping_rsp) = true
bypasses_outbox (some login_rsp) = true
bypasses_outbox (some reconnect_rsp) = true
bypasses_outbox (some logout_rsp) = true
bypasses_outbox (some kick_ntf) = true
bypasses_outbox _ = false

-- `system_end` is the constant `SYSTEM_MSG_ID_END` of the crate xproto.
unfoldable pub is_outbox_message : ℕ → ℕ → Bool
unfolding bypasses_outbox
is_outbox_message system_end msgid =
    if leb 1 msgid && ltb msgid system_end then false else not (bypasses_outbox (from_u16 msgid))

pub data RouteTarget : Type 0 where
  gate logic public : RouteTarget

unfoldable pub route_target : MsgId → Option RouteTarget
route_target ping_req = some gate
route_target login_req = some gate
route_target reconnect_req = some gate
route_target logout_req = some gate
route_target player_info_req = some logic
route_target use_item_req = some logic
route_target mail_list_req = some public
route_target mail_read_req = some public
route_target mail_delete_req = some public
route_target mail_claim_req = some public
route_target _ = none
