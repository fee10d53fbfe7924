-- ===== src/Protocol/Message/Laws/Examples.antt =====
-- The laws of the message ids at concrete ids.
use xkk.Common.{◌↔◌, ◌≢◌, ◌+◌, ◌≡◌, refl, true, some, arith}
use xkk.Protocol.Message.{as_u16, from_u16, is_outbox_message, rsp, req, kind, logic}
use xkk.Protocol.Message.{MsgId}
use xkk.Protocol.Message
use xkk.Protocol.Message.Laws.{from_u16_iff, forwarded_response_is_kept}

from_u16_iff_example :
    (from_u16 3009 ≡ some Message.kick_ntf)
    ↔ ((as_u16 Message.kick_ntf ≡ 3009) × (Message.kick_ntf ≢ Message.unspecified))
from_u16_iff_example = from_u16_iff 3009 Message.kick_ntf

forwarded_response_is_kept_example :
    (kind Message.use_item_req ≡ some req)
    × (r : MsgId) × (from_u16 (as_u16 Message.use_item_req + 1) ≡ some r)
    × (kind r ≡ some rsp)
    × (is_outbox_message 100 (as_u16 r) ≡ true)
unfolding Message.route_target
forwarded_response_is_kept_example =
    forwarded_response_is_kept 100 Message.use_item_req logic (omega arith) refl (λ e. cc)
