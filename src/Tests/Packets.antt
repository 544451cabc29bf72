-- ===== src/Tests/Packets.antt =====
-- The theorems on packets and their parts at concrete inputs.
use libmqtt.Prelude.{
  ℕ, zero, suc, ◌≤◌, ◌≡◌, refl, arith, true, false, List, [], ◌∷◌, ◌++◌, length, none, some, ok,
  panic, Returns, pos,
}
use libmqtt.Keys
use libmqtt.Util.Bytes.{Bytes, put_uint16, encode_string_with_len, encode_bytes_with_len}
use libmqtt.Util.VarInt.{max_msg_size, remain, remain_length_loop, var_int_bytes, get_remain_length}
use libmqtt.Util.VarInt.RoundTrip.{get_remain_length-var_int_bytes}
use libmqtt.Util.RawProps.{
  RawProps, raw_append, prop_kind, slice, prop_value, prop_step, advance, raw_props_loop,
  raw_props_body, get_raw_props,
}
use libmqtt.Util.RawProps.Total.{get_raw_props-Returns}
use libmqtt.Props.Defs.{PropValue, text, bool_ptr, set_bytes}
use libmqtt.Props.Drops.{has_nil_ptr, set_bytes-cases}
use libmqtt.Prelude.{if◌then◌else◌}
use libmqtt.Packets.Types.{v311, v5, Packet, publish, version, version_of, proto_version}
use libmqtt.Packets.Writer.{buffer, base_write}
use libmqtt.Prelude.{err, encode_large_packet, zero, suc}
use libmqtt.Packets.Write.{write_to, bytes_of, publish_payload}
use libmqtt.Packets.Frame.{frame, base_write-too_large}
use libmqtt.Packets.Frame.V311.{body}
use libmqtt.Packets.Frame.Wire.{wire_first, wire_body, write_to-wire}
use libmqtt.Decoder.{decode}
use libmqtt.Decoder.Total.{decode-Returns}
use libmqtt.Decoder.V311.RoundTrip.{received, decode-bytes_of}

-- A PUBLISH of QoS 1, in version 5, whose topic and property block are cut short.
abbrev cut_short : Bytes
cut_short = 0x32 ∷ 7 ∷ 0 ∷ 1 ∷ b'a' ∷ 0 ∷ 9 ∷ 5 ∷ 0x26 ∷ []

decode-Returns_example : Returns (decode v5 cut_short)
decode-Returns_example = decode-Returns v5 cut_short

-- A PUBLISH of QoS 1.
abbrev hello : Packet
hello = publish (record {
  payload = b'h' ∷ b'i' ∷ [];
  topic_name = b'a' ∷ b'/' ∷ b'b' ∷ [];
  props = none;
  packet_id = 300;
  proto_version = 4;
  is_dup = false;
  qos = 1;
  is_retain = true;
})

hello-version : version hello ≡ v311
unfolding version version_of proto_version
hello-version = refl

hello_size : length (body hello) ≤ max_msg_size
unfolding body publish_payload encode_string_with_len encode_bytes_with_len put_uint16
hello_size = omega arith

decode-bytes_of_example :
    (bs : Bytes) × (bytes_of hello ≡ ok bs)
    × (decode v311 (bs ++ 0xc0 ∷ 0 ∷ []) ≡ ok (received hello, 0xc0 ∷ 0 ∷ []))
decode-bytes_of_example =
    decode-bytes_of hello (0xc0 ∷ 0 ∷ []) hello-version (omega arith, omega arith, omega arith)
      hello_size

write_to-wire_example :
    write_to hello (buffer (0xc0 ∷ 0 ∷ []))
    ≡ (buffer ((0xc0 ∷ 0 ∷ []) ++ frame (wire_first hello) (wire_body hello)), ok tt)
write_to-wire_example =
    write_to-wire hello (0xc0 ∷ 0 ∷ []) hello-version refl (omega arith) (omega arith)

unfoldable zeros : ℕ → Bytes
zeros zero = []
zeros (suc n) = 0 ∷ zeros n

length-zeros : (n : ℕ) → length (zeros n) ≡ n
unfolding zeros
length-zeros zero = refl
length-zeros (suc n) = omega (arith, length-zeros n)

base_write-too_large_example :
    base_write 0x30 [] (zeros 268435456) (buffer []) ≡ (buffer (0x30 ∷ []), err encode_large_packet)
base_write-too_large_example =
    base_write-too_large 0x30 [] (zeros 268435456) [] (omega (arith, length-zeros 268435456))

get_remain_length-var_int_bytes_example :
    (bs : Bytes) × (var_int_bytes (pos 16384) ≡ ok bs)
    × (get_remain_length (bs ++ 7 ∷ []) ≡ remain 16384 (length bs) (7 ∷ []))
    × (1 ≤ length bs)
    × (length bs ≤ 4)
get_remain_length-var_int_bytes_example =
    get_remain_length-var_int_bytes 16384 (7 ∷ []) (omega arith)

-- Two subscription ids and the start of what follows.
abbrev two_ids : Bytes
two_ids = 4 ∷ 0x0b ∷ 5 ∷ 0x0b ∷ 6 ∷ 9 ∷ []

abbrev two_ids_props : RawProps
two_ids_props = (0x0b, 5 ∷ 6 ∷ []) ∷ []

two_ids_read : get_raw_props two_ids ≡ ok (two_ids_props, 9 ∷ [])
unfolding raw_append prop_kind slice prop_value prop_step advance raw_props_loop raw_props_body
    get_raw_props get_remain_length remain_length_loop
two_ids_read = refl

get_raw_props-Returns_example : Returns (get_raw_props two_ids)
get_raw_props-Returns_example = get_raw_props-Returns two_ids

abbrev two_values : List (ℕ × PropValue)
two_values = (Keys.content_type, text (b'a' ∷ [])) ∷ (Keys.req_resp_info, bool_ptr (some true)) ∷ []

set_bytes-cases_example : set_bytes two_values ≡ (if has_nil_ptr two_values then panic else ok [])
set_bytes-cases_example = set_bytes-cases two_values
