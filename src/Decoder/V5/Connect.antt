-- ===== src/Decoder/V5/Connect.antt =====
-- CONNECT of MQTT 5, read back field by field.
use libmqtt.Prelude.{
  ℕ, suc, ◌+◌, ◌*◌, ◌/◌, ◌≡◌, ◌∙◌, arith, [], ◌∷◌, ◌++◌, append-nil, length, if◌then◌else◌, none,
  some, ok, guard-leb, decode_bad_packet, bit_and,
}
use libmqtt.Util.Bytes.{
  Bytes, put_uint16, get_uint16, get_string_data, encode_string_with_len, encode_bytes_with_len,
}
use libmqtt.Util.Bytes.RoundTrip.{get_string_data-encode_string_with_len}
use libmqtt.Util.RawProps.{slice, raw_get, raw_props_loop, raw_props_body, get_raw_props}
use libmqtt.Util.VarInt.{remain_length_loop, get_remain_length}
use libmqtt.Props.Defs.{read_u32, read_u16, read_byte, read_flag, read_text, read_binary, read_user}
use libmqtt.Props.Conn.{new_conn_props, set_conn_props}
use libmqtt.Packets.Types.{ConnPacket, conn, v5}
use libmqtt.Packets.Write.{is_empty, flags, conn_fields, conn_var_header}
use libmqtt.Decoder.Reads.{index, has_bits, text_if, will_if}
use libmqtt.Decoder.V5.{decode_conn}
use libmqtt.Decoder.V311.Connect.{
  mqtt, IsConnect, if_will, received_conn, text_if-text, will_if-will, slice_two, tail_four,
  protocol, flags-Reads, two_bytes,
}

-- An empty property block.
pub get_raw_props-none : (rest : Bytes) → get_raw_props (0 ∷ rest) ≡ ok ([], rest)
unfolding get_raw_props raw_props_body raw_props_loop slice get_remain_length remain_length_loop
get_raw_props-none rest = ground arith

-- The properties are there, and empty.
unfoldable pub received_conn_v5 : ConnPacket → ConnPacket
unfolding received_conn
received_conn_v5 c = record (received_conn c) { proto_version = v5; props = some new_conn_props }

-- The decoder once each of its reads of the fields is known.
decode_conn-eq_ok :
    (bits hi lo : ℕ) (fields client_id wt wm user pw b1 b2 b3 b4 : Bytes)
    → get_string_data fields ≡ ok (client_id, b1)
    → will_if (has_bits 0x04 bits) b1 ≡ ok (wt, wm, b2)
    → text_if (has_bits 0x80 bits) b2 ≡ ok (user, b3)
    → text_if (has_bits 0x40 bits) b3 ≡ ok (pw, b4)
    → decode_conn (0 ∷ 4 ∷ (mqtt ++ v5 ∷ bits ∷ hi ∷ lo ∷ 0 ∷ fields))
      ≡ ok (
          conn (record {
            proto_version = v5;
            proto_name = mqtt;
            clean_session = has_bits 0x02 bits;
            is_will = has_bits 0x04 bits;
            will_qos = bit_and bits 0x18 / 8;
            will_retain = has_bits 0x20 bits;
            will_props = none;
            props = some new_conn_props;
            username = user;
            password = pw;
            client_id = client_id;
            keepalive = hi * 256 + lo;
            will_topic = wt;
            will_message = wm;
          }))
unfolding decode_conn index get_uint16 set_conn_props read_u32 read_u16 read_byte read_flag
    read_text read_binary read_user raw_get
decode_conn-eq_ok bits hi lo fields client_id wt wm user pw b1 b2 b3 b4 e1 e2 e3 e4 = rw (
  protocol (v5 ∷ bits ∷ hi ∷ lo ∷ 0 ∷ fields),
  guard-leb 5 (suc (suc (suc (suc (suc (length fields)))))) decode_bad_packet (omega arith),
  slice_two v5 bits hi lo (0 ∷ fields),
  tail_four v5 bits hi lo (0 ∷ fields),
  get_raw_props-none fields,
  e1,
  e2,
  e3,
  e4,
)

pub decode_conn-conn_fields-v5 :
    (c : ConnPacket)
    → IsConnect c
    → decode_conn (conn_var_header v5 c ++ 0 ∷ conn_fields c []) ≡ ok (conn (received_conn_v5 c))
unfolding conn_var_header conn_fields put_uint16 received_conn received_conn_v5
decode_conn-conn_fields-v5 c v =
    let (r, f) = flags-Reads c v.will_qos in
    let (r2, r4, rq, r20, r40, r80) = r in
    let pw : Bytes = if is_empty c.password then [] else encode_string_with_len c.password in
    let user : Bytes = if is_empty c.username then [] else encode_string_with_len c.username in
    let will : Bytes =
      if c.is_will
      then encode_string_with_len c.will_topic ++ encode_bytes_with_len c.will_message
      else [] in
    decode_conn-eq_ok (flags c) _ _ _ c.client_id (if_will c.is_will c.will_topic)
      (if_will c.is_will c.will_message) c.username c.password (will ++ (user ++ pw)) (user ++ pw)
      pw [] (get_string_data-encode_string_with_len c.client_id _ v.client_id)
      (rw (f, r4)
        (will_if-will c.is_will c.will_topic c.will_message _ v.will_topic v.will_message))
      (rw (f, r80) (text_if-text c.username pw v.username))
      (rw (f, r40) (rw append-nil at (text_if-text c.password [] v.password)))
    ∙ rw (f, r2, r4, rq, r20, two_bytes c.keepalive v.keepalive)
