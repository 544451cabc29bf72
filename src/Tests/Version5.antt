-- ===== src/Tests/Version5.antt =====
-- The theorems on packets of version 5 at concrete inputs.
use libmqtt.Prelude.{◌≡◌, refl, arith, false, [], ◌∷◌, ◌++◌, none, some, ok}
use libmqtt.Util.Bytes.{
  Bytes, bool_to_byte, get_uint16, get_binary_data, get_string_data, put_uint16,
  encode_string_with_len, encode_bytes_with_len,
}
use libmqtt.Util.RawProps.{raw_get, slice, raw_props_loop, raw_props_body, get_raw_props}
use libmqtt.Packets.Types.{
  v5, Packet, PublishPacket, subscribe, publish, version, version_of, proto_version,
}
use libmqtt.Props.Sub.{subscribe_props}
use libmqtt.Props.Pub.{new_publish_props, publish_props, set_publish_props, read_sub_ids}
use libmqtt.Packets.Write.{
  bytes_of, topics_payload, publish_payload, write_to, write_publish, publish_first, publish_bits,
}
use libmqtt.Packets.Writer.{base_write, base_write_v5, write_bytes}
use libmqtt.Util.VarInt.{
  var_int_bytes, var_int_loop, encoded_byte, get_remain_length, remain_length_loop,
}
use libmqtt.Props.Defs.{read_u32, read_u16, read_byte, read_flag, read_text, read_binary, read_user}
use libmqtt.Decoder.Reads.{tail_from}
use libmqtt.Decoder.V311.{packet_id_if}
use libmqtt.Decoder.V5.{decode_v5, decode_publish}
use libmqtt.Packets.Frame.V5.{body, written_props}
use libmqtt.Decoder.{decode, read_full, decode_body}
use libmqtt.Decoder.V5.RoundTrip.{received, decode-bytes_of-v5}
use libmqtt.Decoder.V5.Misread.{IsMisread, decode-publish_v5}

-- Two topics.
abbrev asking : Packet
asking = subscribe (record {
  proto_version = v5;
  packet_id = 7;
  topics = record { name = b'a' ∷ []; qos = 1 } ∷ record { name = []; qos = 2 } ∷ [];
  props = none;
})

decode-bytes_of-v5_example :
    (bs : Bytes) × (bytes_of asking ≡ ok bs)
    × (decode v5 (bs ++ 9 ∷ []) ≡ ok (received asking, 9 ∷ []))
unfolding version version_of proto_version body written_props subscribe_props put_uint16
    topics_payload encode_string_with_len encode_bytes_with_len
decode-bytes_of-v5_example =
    decode-bytes_of-v5 asking (9 ∷ []) refl tt refl (omega arith, (omega arith, (omega arith, tt)))
      (omega arith)

-- QoS 1, with a payload of one byte; the topic is one letter.
abbrev telling : PublishPacket
telling = record {
  payload = b'x' ∷ [];
  topic_name = b'a' ∷ [];
  props = none;
  packet_id = 5;
  proto_version = v5;
  is_dup = false;
  qos = 1;
  is_retain = false;
}

-- The bytes that it is written as, and what the decoder makes of them.
abbrev told : Bytes
told = 0x32 ∷ 7 ∷ 0 ∷ 0 ∷ 1 ∷ b'a' ∷ 0 ∷ 5 ∷ b'x' ∷ []

abbrev misread : PublishPacket
misread = record telling {
  payload = 5 ∷ b'x' ∷ [];
  topic_name = [];
  props = some new_publish_props;
  packet_id = 353;
}

telling_written : bytes_of (publish telling) ≡ ok told
unfolding publish_payload encode_string_with_len encode_bytes_with_len bytes_of write_to
    write_publish publish_props base_write_v5 var_int_bytes base_write write_bytes var_int_loop
    publish_first publish_bits bool_to_byte put_uint16 version_of encoded_byte
telling_written = refl

telling_read : decode v5 (told ++ []) ≡ ok (publish misread, [])
unfolding decode get_remain_length remain_length_loop read_full decode_body decode_v5 decode_publish
    get_string_data get_binary_data get_uint16 packet_id_if tail_from get_raw_props raw_props_body
    slice raw_props_loop set_publish_props read_u32 read_u16 read_byte read_flag read_text
    read_binary read_user raw_get read_sub_ids
telling_read = refl

decode-publish_v5_example :
    (bs : Bytes) × (bytes_of (publish telling) ≡ ok bs) × IsMisread (decode v5 (bs ++ []))
unfolding version_of body publish_payload encode_string_with_len encode_bytes_with_len put_uint16
decode-publish_v5_example =
    decode-publish_v5 telling [] refl (omega arith) (omega arith) (omega arith)
