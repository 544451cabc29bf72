-- ===== src/Decoder/V311.antt =====
-- decoder.go, `decodeV311Packet`.
pub mod Total
pub mod Connect
pub mod RoundTrip
use libmqtt.Prelude.{
  ℕ, ◌/◌, ◌+◌, Bool, true, false, List, [], ◌∷◌, leb, ltb, ◌==◌, if◌then◌else◌, length, take, drop,
  bit_and, Option, none, Result, ok, err, panic, stuck, ◌>>=◌, ◌>>◌, guard, decode_bad_packet,
  decode_none_v311_packet,
}
use libmqtt.Util.Bytes.{Bytes, get_uint16, get_string_data}
use libmqtt.Util.RawProps.{slice}
use libmqtt.Packets.Types.{
  Packet, AckPacket, conn, conn_ack, publish, pub_ack, pub_recv, pub_rel, pub_comp, subscribe,
  sub_ack, unsub, unsub_ack, v311,
}
use libmqtt.Decoder.Reads.{index, tail_from, has_bits, text_if, will_if, topics_loop, names_loop}

unfoldable pub decode_conn : Bytes → Result Packet
decode_conn packet = do
  (protocol, body) ← get_string_data packet
  guard (leb 4 (length body)) decode_bad_packet
  level ← index body 0
  guard (level == v311) decode_none_v311_packet
  bits ← index body 1
  keepalive ← get_uint16 (← slice body 2 4)
  (client_id, bs1) ← get_string_data (← tail_from 4 body)
  (will_topic, will_message, bs2) ← will_if (has_bits 0x04 bits) bs1
  (username, bs3) ← text_if (has_bits 0x80 bits) bs2
  (password, bs4) ← text_if (has_bits 0x40 bits) bs3
  ok (
      conn (record {
        proto_version = level;
        proto_name = protocol;
        clean_session = has_bits 0x02 bits;
        is_will = has_bits 0x04 bits;
        will_qos = bit_and bits 0x18 / 8;
        will_retain = has_bits 0x20 bits;
        will_props = none;
        props = none;
        username = username;
        password = password;
        client_id = client_id;
        keepalive = keepalive;
        will_topic = will_topic;
        will_message = will_message;
      }))

unfoldable pub decode_conn_ack : Bytes → Result Packet
decode_conn_ack body = do
  ack_flags ← index body 0
  code ← index body 1
  ok (
      conn_ack (record {
        proto_version = 0;
        present = has_bits 0x01 ack_flags;
        code = code;
        props = none;
      }))

-- The packet id, which a packet of QoS 0 does not have.
unfoldable pub packet_id_if : Bool → Bytes → Result (ℕ × Bytes)
packet_id_if there body =
    if there
    then (do
      guard (leb 2 (length body)) decode_bad_packet
      id ← get_uint16 body
      rest ← tail_from 2 body
      ok (id, rest))
    else ok (0, body)

unfoldable pub decode_publish : ℕ → Bytes → Result Packet
decode_publish header packet = do
  (topic_name, body) ← get_string_data packet
  let qos = bit_and header 0x06 / 2
  (id, payload) ← packet_id_if (ltb 0 qos) body
  ok (
      publish (record {
        payload = payload;
        topic_name = topic_name;
        props = none;
        packet_id = id;
        proto_version = 0;
        is_dup = has_bits 0x08 header;
        qos = qos;
        is_retain = has_bits 0x01 header;
      }))

unfoldable pub decode_ack : (AckPacket → Packet) → Bytes → Result Packet
decode_ack wrap body = do
  id ← get_uint16 body
  ok (wrap (record { proto_version = 0; packet_id = id; code = 0; props = none }))

unfoldable pub decode_subscribe : Bytes → Result Packet
decode_subscribe body = do
  id ← get_uint16 body
  rest ← tail_from 2 body
  topics ← topics_loop (length rest) rest
  ok (subscribe (record { proto_version = 0; packet_id = id; topics = topics; props = none }))

unfoldable pub decode_sub_ack : Bytes → Result Packet
decode_sub_ack body = do
  id ← get_uint16 body
  codes ← tail_from 2 body
  ok (sub_ack (record { proto_version = 0; packet_id = id; codes = codes; props = none }))

unfoldable pub decode_unsub : Bytes → Result Packet
decode_unsub body = do
  id ← get_uint16 body
  rest ← tail_from 2 body
  names ← names_loop (length rest) rest
  ok (unsub (record { proto_version = 0; packet_id = id; topic_names = names; props = none }))

unfoldable pub decode_unsub_ack : Bytes → Result Packet
decode_unsub_ack body = do
  id ← get_uint16 body
  ok (unsub_ack (record { proto_version = 0; packet_id = id; props = none }))

-- The switch on the packet type, the upper half of the header.
unfoldable pub decode_type : ℕ → ℕ → Bytes → Result Packet
decode_type kind header body =
    if kind == 1
    then decode_conn body
    else if kind == 2
    then decode_conn_ack body
    else if kind == 3
    then decode_publish header body
    else if kind == 4
    then decode_ack pub_ack body
    else if kind == 5
    then decode_ack pub_recv body
    else if kind == 6
    then decode_ack pub_rel body
    else if kind == 7
    then decode_ack pub_comp body
    else if kind == 8
    then decode_subscribe body
    else if kind == 9
    then decode_sub_ack body
    else if kind == 10
    then decode_unsub body
    else if kind == 11
    then decode_unsub_ack body
    else err decode_bad_packet

unfoldable pub decode_v311 : ℕ → Bytes → Result Packet
unfolding decode_type
decode_v311 header body = decode_type (header / 16) header body
