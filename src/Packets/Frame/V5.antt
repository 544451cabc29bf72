-- ===== src/Packets/Frame/V5.antt =====
-- The frame that `WriteTo` leaves for a packet of MQTT 5 whose properties are written as no bytes.
use libmqtt.Prelude.{
  ℕ, ◌≤◌, ◌≡◌, refl, arith, false, [], ◌∷◌, ◌++◌, append_assoc, length, Result, ok,
}
use libmqtt.Util.Bytes.{Bytes, bool_to_byte, put_uint16}
use libmqtt.Util.VarInt.{max_msg_size}
use libmqtt.Util.VarInt.RoundTrip.{groups}
use libmqtt.Props.Conn.{conn_props, conn_ack_props, disconn_props, auth_props}
use libmqtt.Props.Pub.{publish_props, reason_props, pub_recv_props, pub_rel_props, pub_comp_props}
use libmqtt.Props.Sub.{subscribe_props, sub_ack_props, unsub_ack_props, unsub_props}
use libmqtt.Packets.Types.{
  ConnPacket, AckPacket, Packet, conn, conn_ack, publish, pub_ack, pub_recv, pub_rel, pub_comp,
  subscribe, sub_ack, unsub, unsub_ack, ping_req, ping_resp, disconn, auth, proto_version,
  version_of, version, v5,
}
use libmqtt.Packets.Writer.{Writer, buffer, W, lift, ◌>>=◌, write_bytes, base_write_v5}
use libmqtt.Packets.Frame.{frame, base_write_v5-frame}
use libmqtt.Packets.Frame.V311.{first_byte}
use libmqtt.Packets.Write.{
  conn_fields, conn_payload, conn_var_header, write_conn, write_conn_ack, publish_payload,
  write_publish, write_ack, topics_payload, write_subscribe, write_sub_ack, names_payload,
  write_unsub, write_unsub_ack, write_ping, write_disconn, write_auth, write_to, bytes_of,
}

-- The property block of a packet, without its length. Pings have none.
unfoldable pub written_props : Packet → Result Bytes
written_props (conn p) = conn_props p.props
written_props (conn_ack p) = conn_ack_props p.props
written_props (publish p) = publish_props p.props
written_props (pub_ack p) = reason_props p.props
written_props (pub_recv p) = pub_recv_props p.props
written_props (pub_rel p) = pub_rel_props p.props
written_props (pub_comp p) = pub_comp_props p.props
written_props (subscribe p) = subscribe_props p.props
written_props (sub_ack p) = sub_ack_props p.props
written_props (unsub p) = unsub_props p.props
written_props (unsub_ack p) = unsub_ack_props p.props
written_props (ping_req v) = ok []
written_props (ping_resp v) = ok []
written_props (disconn p) = disconn_props p.props
written_props (auth p) = auth_props p.props

-- The body, with the 0 that is the length of the property block.
unfoldable pub body : Packet → Bytes
body (conn p) = conn_var_header v5 p ++ 0 ∷ conn_fields p []
body (conn_ack p) = bool_to_byte p.present ∷ p.code ∷ 0 ∷ []
body (publish p) = 0 ∷ publish_payload p
body (pub_ack p) = put_uint16 p.packet_id ++ 0 ∷ []
body (pub_recv p) = put_uint16 p.packet_id ++ 0 ∷ []
body (pub_rel p) = put_uint16 p.packet_id ++ 0 ∷ []
body (pub_comp p) = put_uint16 p.packet_id ++ 0 ∷ []
body (subscribe p) = put_uint16 p.packet_id ++ 0 ∷ topics_payload p.topics
body (sub_ack p) = put_uint16 p.packet_id ++ 0 ∷ p.codes
body (unsub p) = put_uint16 p.packet_id ++ 0 ∷ names_payload p.topic_names
body (unsub_ack p) = put_uint16 p.packet_id ++ 0 ∷ []
body (ping_req v) = []
body (ping_resp v) = []
body (disconn p) = 0 ∷ []
body (auth p) = p.code ∷ 0 ∷ []

-- A CONNECT has no will. Only a will brings will properties in.
abbrev pub HasNoWill : Packet → Type 0
HasNoWill (conn p) = p.is_will ≡ false
HasNoWill _ = Unit

-- `WriteTo` behind the property block.
abbrev with_props : Result Bytes → ℕ → Bytes → Bytes → W (Unit {0})
with_props props first vh payload = do ps ← lift props; base_write_v5 first vh ps payload

with_props-frame :
    (props : Result Bytes) (first : ℕ) (vh payload bs : Bytes)
    → props ≡ ok []
    → length (vh ++ 0 ∷ payload) ≤ max_msg_size
    → with_props props first vh payload (buffer bs)
      ≡ (buffer (bs ++ frame first (vh ++ 0 ∷ payload)), ok tt)
unfolding groups
with_props-frame props first vh payload bs e h =
    let same : (vh ++ 0 ∷ []) ++ payload ≡ vh ++ 0 ∷ payload = append_assoc vh (0 ∷ []) payload in
    rw e (rw same at (base_write_v5-frame first vh [] payload bs (omega arith) (rw same h)))

conn_payload-no_will :
    (c : ConnPacket) (w : Writer)
    → c.is_will ≡ false
    → conn_payload c w ≡ (w, ok (conn_fields c []))
unfolding conn_payload
conn_payload-no_will c w h = rw h

write_ack-frame :
    (first : ℕ) (ack_props : Result Bytes) (p : AckPacket) (bs : Bytes)
    → version_of p.proto_version ≡ v5
    → ack_props ≡ ok []
    → write_ack first ack_props p (buffer bs)
      ≡ (buffer (bs ++ frame first (put_uint16 p.packet_id ++ 0 ∷ [])), ok tt)
unfolding write_ack put_uint16
write_ack-frame first ack_props p bs v e =
    rw v (with_props-frame _ first (put_uint16 p.packet_id) [] bs e (omega arith))

write_ping-frame :
    (first v : ℕ) (bs : Bytes)
    → version_of v ≡ v5
    → write_ping first v (buffer bs) ≡ (buffer (bs ++ frame first []), ok tt)
unfolding write_ping write_bytes frame groups
write_ping-frame first v bs h = rw (h, append_assoc)

-- `WriteTo` of a packet of version 5 without a will, whose property block is empty and whose body has a
-- legal length, appends one frame to the buffer, of the packet's first byte and its body, and returns
-- no error.
pub write_to-frame-v5 :
    (p : Packet) (bs : Bytes)
    → version p ≡ v5
    → HasNoWill p
    → written_props p ≡ ok []
    → length (body p) ≤ max_msg_size
    → write_to p (buffer bs) ≡ (buffer (bs ++ frame (first_byte p) (body p)), ok tt)
unfolding write_to first_byte body version proto_version written_props
write_to-frame-v5 (conn p) bs v w e h =
    unfold write_conn in
    rw (v, e, conn_payload-no_will p _ w) (with_props-frame (ok []) _ _ _ bs refl h)
write_to-frame-v5 (conn_ack p) bs v w e h =
    unfold write_conn_ack in rw v (with_props-frame _ _ _ [] bs e h)
write_to-frame-v5 (publish p) bs v w e h =
    unfold write_publish in rw v (with_props-frame _ _ [] _ bs e h)
write_to-frame-v5 (pub_ack p) bs v w e h = write_ack-frame 0x40 _ p bs v e
write_to-frame-v5 (pub_recv p) bs v w e h = write_ack-frame 0x50 _ p bs v e
write_to-frame-v5 (pub_rel p) bs v w e h = write_ack-frame 0x62 _ p bs v e
write_to-frame-v5 (pub_comp p) bs v w e h = write_ack-frame 0x70 _ p bs v e
write_to-frame-v5 (subscribe p) bs v w e h =
    unfold write_subscribe in rw v (with_props-frame _ _ _ _ bs e h)
write_to-frame-v5 (sub_ack p) bs v w e h =
    unfold write_sub_ack in rw v (with_props-frame _ _ _ _ bs e h)
write_to-frame-v5 (unsub p) bs v w e h =
    unfold write_unsub in rw v (with_props-frame _ _ _ _ bs e h)
write_to-frame-v5 (unsub_ack p) bs v w e h =
    unfold write_unsub_ack in rw v (with_props-frame _ _ _ [] bs e h)
write_to-frame-v5 (ping_req n) bs v w e h = write_ping-frame 0xc0 n bs v
write_to-frame-v5 (ping_resp n) bs v w e h = write_ping-frame 0xd0 n bs v
write_to-frame-v5 (disconn p) bs v w e h =
    unfold write_disconn in rw v (with_props-frame _ _ [] [] bs e h)
write_to-frame-v5 (auth p) bs v w e h = unfold write_auth in with_props-frame _ _ _ [] bs e h

pub bytes_of-frame :
    (p : Packet)
    → version p ≡ v5
    → HasNoWill p
    → written_props p ≡ ok []
    → length (body p) ≤ max_msg_size
    → bytes_of p ≡ ok (frame (first_byte p) (body p))
unfolding bytes_of
bytes_of-frame p v w e h = rw (write_to-frame-v5 p [] v w e h)
