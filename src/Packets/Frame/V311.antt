-- ===== src/Packets/Frame/V311.antt =====
-- The frame that `WriteTo` leaves for each packet of MQTT 3.1.1.
use libmqtt.Prelude.{
  ℕ, ◌≤◌, ◌≡◌, arith, Bool, true, false, [], ◌∷◌, ◌++◌, append_assoc, length, Result, ok,
}
use libmqtt.Util.Bytes.{Bytes, bool_to_byte, put_uint16}
use libmqtt.Util.VarInt.{max_msg_size}
use libmqtt.Util.VarInt.RoundTrip.{groups}
use libmqtt.Packets.Types.{
  ConnPacket, AckPacket, UnsubAckPacket, Packet, conn, conn_ack, publish, pub_ack, pub_recv,
  pub_rel, pub_comp, subscribe, sub_ack, unsub, unsub_ack, ping_req, ping_resp, disconn, auth,
  proto_version, version_of, version, v311,
}
use libmqtt.Packets.Writer.{Writer, buffer, write_bytes}
use libmqtt.Packets.Frame.{frame, write_bytes-buffer, base_write-frame}
use libmqtt.Packets.Write.{
  conn_fields, conn_payload, conn_var_header, write_conn, write_conn_ack, publish_first,
  publish_payload, write_publish, write_ack, topics_payload, write_subscribe, write_sub_ack,
  names_payload, write_unsub, write_unsub_ack, write_ping, write_disconn, write_to, bytes_of,
}

-- The first byte and the body of each packet type. AUTH is no packet of this version.
unfoldable pub first_byte : Packet → ℕ
first_byte (conn p) = 0x10
first_byte (conn_ack p) = 0x20
first_byte (publish p) = publish_first p
first_byte (pub_ack p) = 0x40
first_byte (pub_recv p) = 0x50
first_byte (pub_rel p) = 0x62
first_byte (pub_comp p) = 0x70
first_byte (subscribe p) = 0x82
first_byte (sub_ack p) = 0x90
first_byte (unsub p) = 0xa2
first_byte (unsub_ack p) = 0xb0
first_byte (ping_req v) = 0xc0
first_byte (ping_resp v) = 0xd0
first_byte (disconn p) = 0xe0
first_byte (auth p) = 0xf0

unfoldable pub body : Packet → Bytes
body (conn p) = conn_var_header v311 p ++ conn_fields p []
body (conn_ack p) = bool_to_byte p.present ∷ p.code ∷ []
body (publish p) = publish_payload p
body (pub_ack p) = put_uint16 p.packet_id
body (pub_recv p) = put_uint16 p.packet_id
body (pub_rel p) = put_uint16 p.packet_id
body (pub_comp p) = put_uint16 p.packet_id
body (subscribe p) = put_uint16 p.packet_id ++ topics_payload p.topics
body (sub_ack p) = put_uint16 p.packet_id ++ p.codes
body (unsub p) = put_uint16 p.packet_id ++ names_payload p.topic_names
body (unsub_ack p) = put_uint16 p.packet_id
body (ping_req v) = []
body (ping_resp v) = []
body (disconn p) = []
body (auth p) = []

abbrev pub is_auth : Packet → Bool
is_auth (auth p) = true
is_auth _ = false

conn_payload-v311 :
    (c : ConnPacket) (w : Writer)
    → version_of c.proto_version ≡ v311
    → conn_payload c w ≡ (w, ok (conn_fields c []))
unfolding conn_payload version_of
conn_payload-v311 c w h = ground arith

write_ack-frame :
    (first : ℕ) (ack_props : Result Bytes) (p : AckPacket) (bs : Bytes)
    → version_of p.proto_version ≡ v311
    → write_ack first ack_props p (buffer bs)
      ≡ (buffer (bs ++ frame first (put_uint16 p.packet_id)), ok tt)
unfolding write_ack put_uint16
write_ack-frame first ack_props p bs v =
    rw v (base_write-frame first (put_uint16 p.packet_id) [] bs (omega arith))

write_unsub_ack-frame :
    (p : UnsubAckPacket) (bs : Bytes)
    → version_of p.proto_version ≡ v311
    → write_unsub_ack p (buffer bs) ≡ (buffer (bs ++ frame 0xb0 (put_uint16 p.packet_id)), ok tt)
unfolding write_unsub_ack put_uint16
write_unsub_ack-frame p bs v =
    rw v (base_write-frame 0xb0 (put_uint16 p.packet_id) [] bs (omega arith))

write_ping-frame :
    (first v : ℕ) (bs : Bytes)
    → version_of v ≡ v311
    → write_ping first v (buffer bs) ≡ (buffer (bs ++ frame first []), ok tt)
unfolding write_ping write_bytes frame groups
write_ping-frame first v bs h = rw (h, append_assoc)

-- `WriteTo` of a packet of version 3.1.1 that is no AUTH and whose body has a legal length appends one
-- frame to the buffer, of the packet's first byte and its body, and returns no error.
pub write_to-frame :
    (p : Packet) (bs : Bytes)
    → version p ≡ v311
    → (is_auth p ≡ false)
    → length (body p) ≤ max_msg_size
    → write_to p (buffer bs) ≡ (buffer (bs ++ frame (first_byte p) (body p)), ok tt)
unfolding write_to first_byte body version proto_version
write_to-frame (conn p) bs v a h =
    unfold write_conn in rw (v, conn_payload-v311 p _ v) (base_write-frame _ _ _ bs h)
write_to-frame (conn_ack p) bs v a h =
    unfold write_conn_ack frame groups in rw v (write_bytes-buffer _ bs)
write_to-frame (publish p) bs v a h = unfold write_publish in rw v (base_write-frame _ [] _ bs h)
write_to-frame (pub_ack p) bs v a h = write_ack-frame 0x40 _ p bs v
write_to-frame (pub_recv p) bs v a h = write_ack-frame 0x50 _ p bs v
write_to-frame (pub_rel p) bs v a h = write_ack-frame 0x62 _ p bs v
write_to-frame (pub_comp p) bs v a h = write_ack-frame 0x70 _ p bs v
write_to-frame (subscribe p) bs v a h = unfold write_subscribe in rw v (base_write-frame _ _ _ bs h)
write_to-frame (sub_ack p) bs v a h = unfold write_sub_ack in rw v (base_write-frame _ _ _ bs h)
write_to-frame (unsub p) bs v a h = unfold write_unsub in rw v (base_write-frame _ _ _ bs h)
write_to-frame (unsub_ack p) bs v a h = write_unsub_ack-frame p bs v
write_to-frame (ping_req n) bs v a h = write_ping-frame 0xc0 n bs v
write_to-frame (ping_resp n) bs v a h = write_ping-frame 0xd0 n bs v
write_to-frame (disconn p) bs v a h =
    unfold write_disconn frame groups in rw v (write_bytes-buffer _ bs)
write_to-frame (auth p) bs v a h = cc

pub bytes_of-frame :
    (p : Packet)
    → version p ≡ v311
    → is_auth p ≡ false
    → length (body p) ≤ max_msg_size
    → bytes_of p ≡ ok (frame (first_byte p) (body p))
unfolding bytes_of
bytes_of-frame p v a h = rw (write_to-frame p [] v a h)
