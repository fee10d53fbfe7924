-- ===== src/Protocol/Message/Laws.antt =====
-- The numbers of the message ids, and what the routed requests and their responses have in common.
mod Examples
use xkk.Common.{
  ℕ, suc, ◌+◌, ◌≤◌, ◌≡◌, refl, ◌≢◌, Bool, true, false, Option, none, some, List, [], ◌∷◌, arith,
  eqb, eqb_iff, Bool-cases, inl, inr, sym, ◌∙◌, ap, Option-cases, ◌⊎◌, ◌↔◌, if◌then◌else◌,
}
use xkk.Protocol.Message.{
  MsgId, as_u16, from_u16, find_id, is_outbox_message, MessageKind, req, rsp, kind, RouteTarget,
  gate, route_target, all_msg_ids, drop_unspecified,
}
use xkk.Protocol.Message

pub from_u16-as_u16 : (m : MsgId) → m ≢ Message.unspecified → from_u16 (as_u16 m) ≡ some m
unfolding from_u16
from_u16-as_u16 Message.unspecified h = absurd (h refl)
from_u16-as_u16 _ h = refl

find_id_sound : (v : ℕ) (ms : List MsgId) (m : MsgId) → find_id v ms ≡ some m → as_u16 m ≡ v
unfolding find_id
find_id_sound v [] m h = absurd (cc)
find_id_sound v (x ∷ ms) m h = elim (Bool-cases (eqb (as_u16 x) v)) [
  | inl e ↦ ground (arith, eqb_iff (as_u16 x) v)
  | inr e ↦ find_id_sound v ms m (ground arith)
]

drop_unspecified_ne :
    (o : Option MsgId) (m : MsgId) → drop_unspecified o ≡ some m → m ≢ Message.unspecified
unfolding drop_unspecified
drop_unspecified_ne none m h e = absurd (cc)
drop_unspecified_ne (some Message.unspecified) m h e = absurd (cc)
drop_unspecified_ne (some _) m h e = absurd (cc)

drop_unspecified_sound : (o : Option MsgId) (m : MsgId) → drop_unspecified o ≡ some m → o ≡ some m
unfolding drop_unspecified
drop_unspecified_sound none m h = h
drop_unspecified_sound (some Message.unspecified) m h = absurd (cc)
drop_unspecified_sound (some _) m h = h

pub as_u16-from_u16 : (v : ℕ) (m : MsgId) → from_u16 v ≡ some m → as_u16 m ≡ v
unfolding from_u16
as_u16-from_u16 v m h = find_id_sound v all_msg_ids m (drop_unspecified_sound _ m h)

-- A number is read as a message id exactly if it is the number of that id, and the id is not the
-- unspecified one.
pub from_u16_iff :
    (v : ℕ) (m : MsgId) → (from_u16 v ≡ some m) ↔ ((as_u16 m ≡ v) × (m ≢ Message.unspecified))
unfolding from_u16
from_u16_iff v m = (
  (λ h. (as_u16-from_u16 v m h, drop_unspecified_ne _ m h)),
  (λ (e, n). rw (← e) (from_u16-as_u16 m n)),
)

-- A client request that is forwarded to Logic or Public is a request, and the number after its own
-- is that of a response, which the outbox keeps if the system's message numbers end at 100 or
-- before.
pub forwarded_response_is_kept :
    (system_end : ℕ) (m : MsgId) (t : RouteTarget)
    → system_end ≤ 100
    → route_target m ≡ some t
    → t ≢ gate
    → (kind m ≡ some req)
      × (r : MsgId) × (from_u16 (as_u16 m + 1) ≡ some r)
      × (kind r ≡ some rsp)
      × (is_outbox_message system_end (as_u16 r) ≡ true)
unfolding kind route_target is_outbox_message from_u16 as_u16
forwarded_response_is_kept e Message.player_info_req t h r n =
    (refl, Message.player_info_rsp, refl, refl, ground arith)
forwarded_response_is_kept e Message.use_item_req t h r n =
    (refl, Message.use_item_rsp, refl, refl, ground arith)
forwarded_response_is_kept e Message.mail_list_req t h r n =
    (refl, Message.mail_list_rsp, refl, refl, ground arith)
forwarded_response_is_kept e Message.mail_read_req t h r n =
    (refl, Message.mail_read_rsp, refl, refl, ground arith)
forwarded_response_is_kept e Message.mail_delete_req t h r n =
    (refl, Message.mail_delete_rsp, refl, refl, ground arith)
forwarded_response_is_kept e Message.mail_claim_req t h r n =
    (refl, Message.mail_claim_rsp, refl, refl, ground arith)
forwarded_response_is_kept e Message.ping_req t h r n = absurd (n (cc))
forwarded_response_is_kept e Message.login_req t h r n = absurd (n (cc))
forwarded_response_is_kept e Message.reconnect_req t h r n = absurd (n (cc))
forwarded_response_is_kept e Message.logout_req t h r n = absurd (n (cc))
forwarded_response_is_kept e _ t h r n = absurd (cc)
