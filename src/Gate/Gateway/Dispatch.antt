-- ===== src/Gate/Gateway/Dispatch.antt =====
-- The routes that `handle_packet` writes out, against the table of protocol/src/message.rs.
use xkk.Common.{refl, sym, ◌↔◌, ℕ, ◌+◌, ◌≡◌, ◌≢◌, ◌∙◌, ap, arith, inl, inr, some, Option-cases}
use xkk.Protocol.Message.{MsgId, RouteTarget, route_target, as_u16, from_u16}
use xkk.Protocol.Message
use xkk.Protocol.Message.Laws.{as_u16-from_u16, from_u16-as_u16}
use xkk.Gate.Gateway.Forward.{forwarded, dispatch, dispatch_id}

forwarded_id :
    (m : MsgId) (t : RouteTarget) (r : MsgId)
    → dispatch_id m ≡ forwarded t r
    → (route_target m ≡ some t) × (t ≢ RouteTarget.gate) × (as_u16 r ≡ as_u16 m + 1)
unfolding dispatch_id route_target as_u16
forwarded_id Message.player_info_req t r h = (cc, (λ g. absurd (cc)), ground arith)
forwarded_id Message.use_item_req t r h = (cc, (λ g. absurd (cc)), ground arith)
forwarded_id Message.mail_list_req t r h = (cc, (λ g. absurd (cc)), ground arith)
forwarded_id Message.mail_read_req t r h = (cc, (λ g. absurd (cc)), ground arith)
forwarded_id Message.mail_delete_req t r h = (cc, (λ g. absurd (cc)), ground arith)
forwarded_id Message.mail_claim_req t r h = (cc, (λ g. absurd (cc)), ground arith)
forwarded_id _ t r h = absurd (cc)

dispatch_follows :
    (v : ℕ) (t : RouteTarget) (r : MsgId)
    → dispatch (some v) ≡ forwarded t r
    → (m : MsgId) × (from_u16 v ≡ some m)
      × (route_target m ≡ some t)
      × (t ≢ RouteTarget.gate)
      × (as_u16 r ≡ v + 1)
unfolding dispatch
dispatch_follows v t r h = elim (Option-cases (from_u16 v)) [
  | inl e ↦ absurd (let h' = rw (e, dispatch) at h in cc)
  | inr (m, e) ↦
      let (route, other, next) = forwarded_id m t r (rw (e, dispatch) at h) in
      (m, e, route, other, next ∙ ap (λ n. n + 1) (as_u16-from_u16 v m e))
]

-- The id with the number after that of a request is the id of its response.
next_id : (m r n : MsgId) → from_u16 (as_u16 m + 1) ≡ some n → as_u16 r ≡ as_u16 m + 1 → n ≡ r
unfolding as_u16
next_id m r n f e =
    let u : r ≢ Message.unspecified = λ u. let z = rw u at e in omega (arith, z) in
    let found = from_u16-as_u16 r u in let same : from_u16 (as_u16 r) ≡ some n = rw e f in cc

dispatch_forwards :
    (m : MsgId) (t : RouteTarget) (r : MsgId)
    → route_target m ≡ some t
    → t ≢ RouteTarget.gate
    → as_u16 r ≡ as_u16 m + 1
    → dispatch_id m ≡ forwarded t r
unfolding dispatch_id route_target as_u16 from_u16
dispatch_forwards Message.player_info_req t r h g e =
    let next = next_id Message.player_info_req r Message.player_info_rsp refl e in cc
dispatch_forwards Message.use_item_req t r h g e =
    let next = next_id Message.use_item_req r Message.use_item_rsp refl e in cc
dispatch_forwards Message.mail_list_req t r h g e =
    let next = next_id Message.mail_list_req r Message.mail_list_rsp refl e in cc
dispatch_forwards Message.mail_read_req t r h g e =
    let next = next_id Message.mail_read_req r Message.mail_read_rsp refl e in cc
dispatch_forwards Message.mail_delete_req t r h g e =
    let next = next_id Message.mail_delete_req r Message.mail_delete_rsp refl e in cc
dispatch_forwards Message.mail_claim_req t r h g e =
    let next = next_id Message.mail_claim_req r Message.mail_claim_rsp refl e in cc
dispatch_forwards Message.ping_req t r h g e = absurd (g (cc))
dispatch_forwards Message.login_req t r h g e = absurd (g (cc))
dispatch_forwards Message.reconnect_req t r h g e = absurd (g (cc))
dispatch_forwards Message.logout_req t r h g e = absurd (g (cc))
dispatch_forwards _ t r h g e = absurd (cc)

-- `handle_packet` forwards a packet to a target, with a message id for the answer, exactly if the packet
-- carries a request whose route in the table is this target, the target is not the gate, and the answer's
-- message id is the one after the packet's.
pub dispatch_follows_routes :
    (v : ℕ) (t : RouteTarget) (r : MsgId)
    → (dispatch (some v) ≡ forwarded t r) ↔ (
        (m : MsgId) × (from_u16 v ≡ some m)
        × (route_target m ≡ some t)
        × (t ≢ RouteTarget.gate)
        × (as_u16 r ≡ v + 1))
unfolding dispatch
dispatch_follows_routes v t r = (
  dispatch_follows v t r,
  (λ (m, e, route, other, next).
      rw (e, dispatch)
        (dispatch_forwards m t r route other
          (next ∙ ap (λ n. n + 1) (sym (as_u16-from_u16 v m e))))),
)
