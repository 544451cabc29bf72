-- ===== src/Packets/Write.antt =====
-- pkt_*.go, `WriteTo` with the flags and payloads, and encoder.go.
pub mod Flags
use libmqtt.Prelude.{
  ℕ, ◌+◌, ◌*◌, ◌/◌, ◌%◌, Bool, true, false, List, [], ◌∷◌, ◌++◌, ltb, ◌==◌, if◌then◌else◌, length,
  bit_or, Option, none, some, Result, ok, err, panic, stuck, ℤ, pos, unsupported_version,
  encode_bad_packet,
}
use libmqtt.Util.Bytes.{
  Bytes, bool_to_byte, put_uint16, encode_string_with_len, encode_bytes_with_len,
}
use libmqtt.Util.VarInt.{var_int_bytes}
use libmqtt.Props.Conn.{
  will_props, conn_props, conn_ack_props, disconn_props, auth_props, WillProps,
}
use libmqtt.Props.Pub.{publish_props, reason_props, pub_recv_props, pub_rel_props, pub_comp_props}
use libmqtt.Props.Sub.{subscribe_props, sub_ack_props, unsub_ack_props, unsub_props}
use libmqtt.Packets.Types.{
  PubRecvPacket, PubRelPacket, PubCompPacket, Topic, ConnPacket, ConnAckPacket, PublishPacket,
  AckPacket, SubscribePacket, SubAckPacket, UnsubPacket, UnsubAckPacket, DisconnPacket, AuthPacket,
  Packet, conn, conn_ack, publish, pub_ack, pub_recv, pub_rel, pub_comp, subscribe, sub_ack, unsub,
  unsub_ack, ping_req, ping_resp, disconn, auth, version_of, v311, v5,
}
use libmqtt.Packets.Writer.{
  Writer, buffer, W, ◌>>=◌, ◌>>◌, lift, write_bytes, base_write, base_write_v5,
}

-- `switch version` of every `WriteTo`.
abbrev pub by_version : ℕ → W (Unit {0}) → W (Unit {0}) → W (Unit {0})
by_version v old new =
    if version_of v == v311
    then old
    else if version_of v == v5
    then new
    else lift (err unsupported_version)

abbrev pub is_empty : Bytes → Bool
is_empty [] = true
is_empty (b ∷ bs) = false

-- `flags` turns the clean session on where there is no client id, and keeps that in the packet.
unfoldable pub clean : ConnPacket → ConnPacket
clean c = if is_empty c.client_id then record c { clean_session = true } else c

abbrev pub flag_if : Bool → ℕ → ℕ → ℕ
flag_if b bits flag = if b then bit_or flag bits else flag

-- The byte, from the tests of `flags` alone: clean session, will, its QoS and retain bit, password
-- and user name.
unfoldable pub flag_bits : Bool → Bool → ℕ → Bool → Bool → Bool → ℕ
flag_bits clean_session is_will will_qos will_retain has_password has_username =
    let f1 = flag_if clean_session 0x02 0 in
    let f2 =
      if is_will
      then flag_if will_retain 0x20 (bit_or (bit_or f1 0x04) (will_qos * 8 % 256))
      else f1 in
    let f3 = flag_if has_password 0x40 f2 in flag_if has_username 0x80 f3

unfoldable pub flags : ConnPacket → ℕ
unfolding clean
flags c =
    let has_password = if is_empty c.password then false else true in
    let has_username = if is_empty c.username then false else true in
    flag_bits (clean c).clean_session c.is_will c.will_qos c.will_retain has_password has_username

-- The will properties, which only version 5 has. The error of `writeVarInt` is dropped.
abbrev or_empty : Result Bytes → Result Bytes
or_empty (ok b) = ok b
or_empty (err e) = ok []
or_empty panic = panic
or_empty stuck = stuck

abbrev with_length : Bytes → Result Bytes → Result Bytes
with_length bs (ok len) = ok (len ++ bs)
with_length bs (err e) = err e
with_length bs panic = panic
with_length bs stuck = stuck

abbrev measured : Result Bytes → Result Bytes
measured (ok bs) = with_length bs (or_empty (var_int_bytes (pos (length bs))))
measured (err e) = err e
measured panic = panic
measured stuck = stuck

unfoldable pub will_props_payload : ConnPacket → Result Bytes
will_props_payload c = elim c.will_props [
  | none ↦ ok (0 ∷ [])
  | some p ↦ measured (will_props (some p))
]

-- The client id, then `wp` (the will properties), the will and the credentials.
unfoldable pub conn_fields : ConnPacket → Bytes → Bytes
conn_fields c wp =
    encode_string_with_len c.client_id
    ++ ((if c.is_will
          then wp ++ (encode_string_with_len c.will_topic ++ encode_bytes_with_len c.will_message)
          else [])
        ++ ((if is_empty c.username then [] else encode_string_with_len c.username)
            ++ (if is_empty c.password then [] else encode_string_with_len c.password)))

unfoldable pub conn_payload : ConnPacket → W Bytes
conn_payload c =
    if c.is_will
    then (if c.proto_version == v5
        then (do wp ← lift (will_props_payload c); lift (ok (conn_fields c wp)))
        else lift (ok (conn_fields c [])))
    else lift (ok (conn_fields c []))

unfoldable pub conn_var_header : ℕ → ConnPacket → Bytes
conn_var_header level c =
    0 ∷ 4 ∷ b'M' ∷ b'Q' ∷ b'T' ∷ b'T' ∷ level ∷ flags c ∷ put_uint16 c.keepalive

unfoldable pub write_conn : ConnPacket → W (Unit {0})
write_conn c =
    by_version c.proto_version
      (do payload ← conn_payload c; base_write 0x10 (conn_var_header v311 c) payload)
      (do
        props ← lift (conn_props c.props)
        payload ← conn_payload c
        base_write_v5 0x10 (conn_var_header v5 c) props payload)

unfoldable pub write_conn_ack : ConnAckPacket → W (Unit {0})
write_conn_ack c =
    by_version c.proto_version (write_bytes (0x20 ∷ 2 ∷ bool_to_byte c.present ∷ c.code ∷ [])) (do
      props ← lift (conn_ack_props c.props)
      base_write_v5 0x20 (bool_to_byte c.present ∷ c.code ∷ []) props [])

unfoldable pub publish_bits : Bool → Bool → ℕ → ℕ
publish_bits is_dup is_retain qos =
    bit_or (bit_or (bit_or 0x30 (bool_to_byte is_dup * 8)) (bool_to_byte is_retain)) (qos * 2 % 256)

unfoldable pub publish_first : PublishPacket → ℕ
publish_first p = publish_bits p.is_dup p.is_retain p.qos

unfoldable pub publish_payload : PublishPacket → Bytes
publish_payload p =
    encode_string_with_len p.topic_name
    ++ ((if ltb 0 p.qos then put_uint16 p.packet_id else []) ++ p.payload)

unfoldable pub write_publish : PublishPacket → W (Unit {0})
write_publish p =
    by_version p.proto_version (base_write (publish_first p) [] (publish_payload p)) (do
      props ← lift (publish_props p.props)
      base_write_v5 (publish_first p) [] props (publish_payload p))

-- `WriteTo` of the four acknowledgements of PUBLISH, which differ in the first byte and in their
-- properties. The reason code is not written.
unfoldable pub write_ack : ℕ → Result Bytes → AckPacket → W (Unit {0})
write_ack first ack_props p =
    by_version p.proto_version (base_write first (put_uint16 p.packet_id) [])
      (do props ← lift ack_props; base_write_v5 first (put_uint16 p.packet_id) props [])

abbrev pub write_pub_ack : AckPacket → W (Unit {0})
write_pub_ack p = write_ack 0x40 (reason_props p.props) p

abbrev pub write_pub_recv : PubRecvPacket → W (Unit {0})
write_pub_recv p = write_ack 0x50 (pub_recv_props p.props) p

abbrev pub write_pub_rel : PubRelPacket → W (Unit {0})
write_pub_rel p = write_ack 0x62 (pub_rel_props p.props) p

abbrev pub write_pub_comp : PubCompPacket → W (Unit {0})
write_pub_comp p = write_ack 0x70 (pub_comp_props p.props) p

unfoldable pub topics_payload : List Topic → Bytes
topics_payload [] = []
topics_payload (t ∷ ts) = encode_string_with_len t.name ++ (t.qos ∷ topics_payload ts)

unfoldable pub write_subscribe : SubscribePacket → W (Unit {0})
write_subscribe s =
    by_version s.proto_version (base_write 0x82 (put_uint16 s.packet_id) (topics_payload s.topics))
      (do
        props ← lift (subscribe_props s.props)
        base_write_v5 0x82 (put_uint16 s.packet_id) props (topics_payload s.topics))

unfoldable pub write_sub_ack : SubAckPacket → W (Unit {0})
write_sub_ack s = by_version s.proto_version (base_write 0x90 (put_uint16 s.packet_id) s.codes) (do
  props ← lift (sub_ack_props s.props)
  base_write_v5 0x90 (put_uint16 s.packet_id) props s.codes)

unfoldable pub names_payload : List Bytes → Bytes
names_payload [] = []
names_payload (t ∷ ts) = encode_string_with_len t ++ names_payload ts

unfoldable pub write_unsub : UnsubPacket → W (Unit {0})
write_unsub s =
    by_version s.proto_version
      (base_write 0xa2 (put_uint16 s.packet_id) (names_payload s.topic_names))
      (do
        props ← lift (unsub_props s.props)
        base_write_v5 0xa2 (put_uint16 s.packet_id) props (names_payload s.topic_names))

unfoldable pub write_unsub_ack : UnsubAckPacket → W (Unit {0})
write_unsub_ack s = by_version s.proto_version (base_write 0xb0 (put_uint16 s.packet_id) []) (do
  props ← lift (unsub_ack_props s.props)
  base_write_v5 0xb0 (put_uint16 s.packet_id) props [])

-- Both pings are two bytes in either version; the error of the first is dropped.
abbrev ignore_error : W (Unit {0}) → W (Unit {0})
ignore_error m w = ((m w).0, ok tt)

unfoldable pub write_ping : ℕ → ℕ → W (Unit {0})
write_ping first v =
    let two = ignore_error (write_bytes (first ∷ [])) >> write_bytes (0 ∷ []) in
    by_version v two two

unfoldable pub write_disconn : DisconnPacket → W (Unit {0})
write_disconn d =
    by_version d.proto_version (write_bytes (0xe0 ∷ 0 ∷ []))
      (do props ← lift (disconn_props d.props); base_write_v5 0xe0 [] props [])

-- Version 5 whatever the packet says.
unfoldable pub write_auth : AuthPacket → W (Unit {0})
write_auth a = do props ← lift (auth_props a.props); base_write_v5 0xf0 (a.code ∷ []) props []

unfoldable pub write_to : Packet → W (Unit {0})
write_to (conn p) = write_conn p
write_to (conn_ack p) = write_conn_ack p
write_to (publish p) = write_publish p
write_to (pub_ack p) = write_pub_ack p
write_to (pub_recv p) = write_pub_recv p
write_to (pub_rel p) = write_pub_rel p
write_to (pub_comp p) = write_pub_comp p
write_to (subscribe p) = write_subscribe p
write_to (sub_ack p) = write_sub_ack p
write_to (unsub p) = write_unsub p
write_to (unsub_ack p) = write_unsub_ack p
write_to (ping_req v) = write_ping 0xc0 v
write_to (ping_resp v) = write_ping 0xd0 v
write_to (disconn p) = write_disconn p
write_to (auth p) = write_auth p

-- `Encode`, where `none` is a nil pointer.
unfoldable pub encode : Option Packet → W (Unit {0})
encode none = lift (err encode_bad_packet)
encode (some p) = write_to p

-- `Bytes()`: whatever reached a fresh buffer, the error dropped. A panic passes through.
abbrev pub buffered : Writer × Result (Unit {0}) → Result Bytes
buffered (w, ok _) = ok w.written
buffered (w, err e) = ok w.written
buffered (w, panic) = panic
buffered (w, stuck) = stuck

unfoldable pub bytes_of : Packet → Result Bytes
bytes_of p = buffered (write_to p (buffer []))
