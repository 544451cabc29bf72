-- ===== src/Decoder/V5.antt =====
-- decoder.go, `decodeV5Packet`.
pub mod Total
pub mod Connect
pub mod RoundTrip
pub mod Misread
use libmqtt.Prelude.{
  ℕ, ◌/◌, ◌+◌, Bool, true, false, List, [], ◌∷◌, leb, ltb, ◌==◌, if◌then◌else◌, length, take, drop,
  bit_and, Option, none, some, Result, ok, err, panic, stuck, ◌>>=◌, ◌>>◌, guard, decode_bad_packet,
  decode_none_v5_packet,
}
use libmqtt.Util.Bytes.{Bytes, get_uint16, get_string_data}
use libmqtt.Util.RawProps.{RawProps, slice, get_raw_props}
use libmqtt.Props.Conn.{
  new_conn_props, set_conn_props, new_conn_ack_props, set_conn_ack_props, new_disconn_props,
  set_disconn_props, new_auth_props, set_auth_props,
}
use libmqtt.Props.Pub.{
  new_publish_props, set_publish_props, ReasonProps, new_reason_props, set_reason_props,
  set_pub_recv_props, set_pub_rel_props, set_pub_comp_props,
}
use libmqtt.Props.Sub.{
  new_subscribe_props, set_subscribe_props, new_unsub_props, set_unsub_props, set_sub_ack_props,
  set_unsub_ack_props,
}
use libmqtt.Packets.Types.{
  Packet, AckPacket, conn, conn_ack, publish, pub_ack, pub_recv, pub_rel, pub_comp, subscribe,
  sub_ack, unsub, unsub_ack, disconn, auth, v5,
}
use libmqtt.Decoder.Reads.{index, tail_from, has_bits, text_if, will_if, topics_loop, names_loop}
use libmqtt.Decoder.V311.{packet_id_if}

-- The will properties, which version 5 puts before the will topic, are not read.
unfoldable pub decode_conn : Bytes → Result Packet
decode_conn packet = do
  (protocol, body) ← get_string_data packet
  guard (leb 5 (length body)) decode_bad_packet
  level ← index body 0
  guard (level == v5) decode_none_v5_packet
  bits ← index body 1
  keepalive ← get_uint16 (← slice body 2 4)
  (raw, bs0) ← get_raw_props (← tail_from 4 body)
  props ← set_conn_props raw new_conn_props
  (client_id, bs1) ← get_string_data bs0
  (will_topic, will_message, bs2) ← will_if (has_bits 0x04 bits) bs1
  (username, bs3) ← text_if (has_bits 0x80 bits) bs2
  (password, bs4) ← text_if (has_bits 0x40 bits) bs3
  ok (
      conn (record {
        proto_version = v5;
        proto_name = protocol;
        clean_session = has_bits 0x02 bits;
        is_will = has_bits 0x04 bits;
        will_qos = bit_and bits 0x18 / 8;
        will_retain = has_bits 0x20 bits;
        will_props = none;
        props = some props;
        username = username;
        password = password;
        client_id = client_id;
        keepalive = keepalive;
        will_topic = will_topic;
        will_message = will_message;
      }))

unfoldable pub decode_conn_ack : Bytes → Result Packet
decode_conn_ack body = do
  ack_flags ← index body 0
  code ← index body 1
  (raw, next) ← get_raw_props (← tail_from 2 body)
  props ← set_conn_ack_props raw new_conn_ack_props
  ok (
      conn_ack (record {
        proto_version = v5;
        present = has_bits 0x01 ack_flags;
        code = code;
        props = some props;
      }))

unfoldable pub decode_publish : ℕ → Bytes → Result Packet
decode_publish header packet = do
  (topic_name, body) ← get_string_data packet
  let qos = bit_and header 0x06 / 2
  (id, body') ← packet_id_if (ltb 0 qos) body
  (raw, payload) ← get_raw_props body'
  props ← set_publish_props raw new_publish_props
  ok (
      publish (record {
        payload = payload;
        topic_name = topic_name;
        props = some props;
        packet_id = id;
        proto_version = v5;
        is_dup = has_bits 0x08 header;
        qos = qos;
        is_retain = has_bits 0x01 header;
      }))

unfoldable pub decode_ack :
    (AckPacket → Packet) → (RawProps → ReasonProps → Result ReasonProps) → Bytes → Result Packet
decode_ack wrap set_props body = do
  guard (leb 3 (length body)) decode_bad_packet
  id ← get_uint16 body
  code ← index body 2
  (raw, next) ← get_raw_props (← tail_from 3 body)
  props ← set_props raw new_reason_props
  ok (wrap (record { proto_version = v5; packet_id = id; code = code; props = some props }))

unfoldable pub decode_subscribe : Bytes → Result Packet
decode_subscribe body = do
  id ← get_uint16 body
  (raw, next) ← get_raw_props (← tail_from 2 body)
  props ← set_subscribe_props raw new_subscribe_props
  topics ← topics_loop (length next) next
  ok (
      subscribe
        (record { proto_version = v5; packet_id = id; topics = topics; props = some props }))

unfoldable pub decode_sub_ack : Bytes → Result Packet
decode_sub_ack body = do
  id ← get_uint16 body
  (raw, next) ← get_raw_props (← tail_from 2 body)
  props ← set_sub_ack_props raw new_reason_props
  ok (sub_ack (record { proto_version = v5; packet_id = id; codes = next; props = some props }))

unfoldable pub decode_unsub : Bytes → Result Packet
decode_unsub body = do
  id ← get_uint16 body
  (raw, next) ← get_raw_props (← tail_from 2 body)
  props ← set_unsub_props raw new_unsub_props
  names ← names_loop (length next) next
  ok (
      unsub
        (record { proto_version = v5; packet_id = id; topic_names = names; props = some props }))

unfoldable pub decode_unsub_ack : Bytes → Result Packet
decode_unsub_ack body = do
  id ← get_uint16 body
  (raw, next) ← get_raw_props (← tail_from 2 body)
  props ← set_unsub_ack_props raw new_reason_props
  ok (unsub_ack (record { proto_version = v5; packet_id = id; props = some props }))

unfoldable pub decode_disconn : Bytes → Result Packet
decode_disconn body = do
  code ← index body 0
  (raw, next) ← get_raw_props (← tail_from 1 body)
  props ← set_disconn_props raw new_disconn_props
  ok (disconn (record { proto_version = v5; code = code; props = some props }))

unfoldable pub decode_auth : Bytes → Result Packet
decode_auth body = do
  code ← index body 0
  (raw, next) ← get_raw_props (← tail_from 1 body)
  props ← set_auth_props raw new_auth_props
  ok (auth (record { proto_version = v5; code = code; props = some props }))

-- The switch on the packet type, the upper half of the header.
unfoldable pub decode_type : ℕ → ℕ → Bytes → Result Packet
decode_type kind header body =
    if kind == 1
    then decode_conn body
    else if kind == 2
    then decode_conn_ack body
    else if kind == 3
    then decode_publish header body
    else if kind == 4
    then decode_ack pub_ack set_reason_props body
    else if kind == 5
    then decode_ack pub_recv set_pub_recv_props body
    else if kind == 6
    then decode_ack pub_rel set_pub_rel_props body
    else if kind == 7
    then decode_ack pub_comp set_pub_comp_props body
    else if kind == 8
    then decode_subscribe body
    else if kind == 9
    then decode_sub_ack body
    else if kind == 10
    then decode_unsub body
    else if kind == 11
    then decode_unsub_ack body
    else if kind == 14
    then decode_disconn body
    else if kind == 15
    then decode_auth body
    else err decode_bad_packet

unfoldable pub decode_v5 : ℕ → Bytes → Result Packet
unfolding decode_type
decode_v5 header body = decode_type (header / 16) header body
