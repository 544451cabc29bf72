-- ===== src/Decoder/V311/Connect.antt =====
-- CONNECT of MQTT 3.1.1, read back field by field.
use libmqtt.Prelude.{
  ℕ, suc, ◌+◌, ◌*◌, ◌/◌, ◌%◌, ◌<◌, ◌≡◌, refl, ◌∙◌, arith, Bool, true, false, ◌&&◌, [], ◌∷◌, ◌++◌,
  append-nil, append_assoc, length, if◌then◌else◌, none, ok, guard-leb, decode_bad_packet, bit_and,
}
use libmqtt.Util.Bytes.{
  Bytes, IsU16, put_uint16, get_uint16, get_string_data, encode_string_with_len,
  encode_bytes_with_len,
}
use libmqtt.Util.Bytes.RoundTrip.{
  get_string_data-encode_string_with_len, get_binary_data-encode_bytes_with_len,
}
use libmqtt.Util.RawProps.{slice}
use libmqtt.Packets.Types.{ConnPacket, conn, v311}
use libmqtt.Packets.Write.{is_empty, clean, flags, flag_bits, conn_fields, conn_var_header}
use libmqtt.Packets.Write.Flags.{Reads, flag_bits-Reads}
use libmqtt.Decoder.Reads.{index, tail_from, has_bits, text_if, will_if}
use libmqtt.Decoder.V311.{decode_conn}

-- The protocol name that is always written.
abbrev pub mqtt : Bytes
mqtt = b'M' ∷ b'Q' ∷ b'T' ∷ b'T' ∷ []

-- The texts fit their length prefixes, and the QoS of the will fits its two bits.
pub record IsConnect (c : ConnPacket) : Type 0 where
  pub client_id : IsU16 (length c.client_id)
  pub will_topic : IsU16 (length c.will_topic)
  pub will_message : IsU16 (length c.will_message)
  pub username : IsU16 (length c.username)
  pub password : IsU16 (length c.password)
  pub keepalive : IsU16 c.keepalive
  pub will_qos : c.will_qos < 4

abbrev pub filled : Bytes → Bool
filled bs = if is_empty bs then false else true

abbrev pub if_will : Bool → Bytes → Bytes
if_will b bs = if b then bs else []

-- What the receiver has of a CONNECT packet: the protocol name and level that were written, a clean
-- session where there is no client id, and the will only if there is one.
unfoldable pub received_conn : ConnPacket → ConnPacket
received_conn c = record {
  proto_version = v311;
  proto_name = mqtt;
  clean_session = (clean c).clean_session;
  is_will = c.is_will;
  will_qos = if c.is_will then c.will_qos else 0;
  will_retain = c.is_will && c.will_retain;
  will_props = none;
  props = none;
  username = c.username;
  password = c.password;
  client_id = c.client_id;
  keepalive = c.keepalive;
  will_topic = if_will c.is_will c.will_topic;
  will_message = if_will c.is_will c.will_message;
}

pub text_if-text :
    (d rest : Bytes)
    → IsU16 (length d)
    → text_if (filled d) ((if is_empty d then [] else encode_string_with_len d) ++ rest)
      ≡ ok (d, rest)
unfolding text_if
text_if-text [] rest h = refl
text_if-text (b ∷ d) rest h = get_string_data-encode_string_with_len (b ∷ d) rest h

pub will_if-will :
    (b : Bool) (topic message rest : Bytes)
    → IsU16 (length topic)
    → IsU16 (length message)
    → will_if b
        ((if b then encode_string_with_len topic ++ encode_bytes_with_len message else []) ++ rest)
      ≡ ok (if_will b topic, if_will b message, rest)
unfolding will_if
will_if-will false topic message rest h k = refl
will_if-will true topic message rest h k = rw (
  append_assoc,
  get_string_data-encode_string_with_len topic _ h,
  get_binary_data-encode_bytes_with_len message rest k,
)

pub slice_two : (a b hi lo : ℕ) (bs : Bytes) → slice (a ∷ b ∷ hi ∷ lo ∷ bs) 2 4 ≡ ok (hi ∷ lo ∷ [])
unfolding slice
slice_two a b hi lo bs = ground arith

pub tail_four : (a b hi lo : ℕ) (bs : Bytes) → tail_from 4 (a ∷ b ∷ hi ∷ lo ∷ bs) ≡ ok bs
unfolding tail_from
tail_four a b hi lo bs = ground arith

pub protocol : (bs : Bytes) → get_string_data (0 ∷ 4 ∷ (mqtt ++ bs)) ≡ ok (mqtt, bs)
unfolding encode_string_with_len encode_bytes_with_len put_uint16
protocol bs = get_string_data-encode_string_with_len mqtt bs (omega arith)

-- The decoder once each of its reads of the fields is known.
decode_conn-eq_ok :
    (bits hi lo : ℕ) (fields client_id wt wm user pw b1 b2 b3 b4 : Bytes)
    → get_string_data fields ≡ ok (client_id, b1)
    → will_if (has_bits 0x04 bits) b1 ≡ ok (wt, wm, b2)
    → text_if (has_bits 0x80 bits) b2 ≡ ok (user, b3)
    → text_if (has_bits 0x40 bits) b3 ≡ ok (pw, b4)
    → decode_conn (0 ∷ 4 ∷ (mqtt ++ v311 ∷ bits ∷ hi ∷ lo ∷ fields))
      ≡ ok (
          conn (record {
            proto_version = v311;
            proto_name = mqtt;
            clean_session = has_bits 0x02 bits;
            is_will = has_bits 0x04 bits;
            will_qos = bit_and bits 0x18 / 8;
            will_retain = has_bits 0x20 bits;
            will_props = none;
            props = none;
            username = user;
            password = pw;
            client_id = client_id;
            keepalive = hi * 256 + lo;
            will_topic = wt;
            will_message = wm;
          }))
unfolding decode_conn index get_uint16
decode_conn-eq_ok bits hi lo fields client_id wt wm user pw b1 b2 b3 b4 e1 e2 e3 e4 = rw (
  protocol (v311 ∷ bits ∷ hi ∷ lo ∷ fields),
  guard-leb 4 (suc (suc (suc (suc (length fields))))) decode_bad_packet (omega arith),
  slice_two v311 bits hi lo fields,
  tail_four v311 bits hi lo fields,
  e1,
  e2,
  e3,
  e4,
)

pub flags-Reads :
    (c : ConnPacket)
    → c.will_qos < 4
    → Reads c.will_qos
        (clean c).clean_session
        c.is_will
        c.will_retain
        (filled c.password)
        (filled c.username)
      × (flags c
          ≡ flag_bits
              (clean c).clean_session
              c.is_will
              c.will_qos
              c.will_retain
              (filled c.password)
              (filled c.username))
unfolding flags
flags-Reads c h = (flag_bits-Reads c.will_qos _ _ _ _ _ h, refl)

pub two_bytes : (n : ℕ) → IsU16 n → n / 256 % 256 * 256 + n % 256 ≡ n
two_bytes n h = omega arith

pub decode_conn-conn_fields :
    (c : ConnPacket)
    → IsConnect c
    → decode_conn (conn_var_header v311 c ++ conn_fields c []) ≡ ok (conn (received_conn c))
unfolding conn_var_header conn_fields put_uint16 received_conn
decode_conn-conn_fields c v =
    let (r, f) = flags-Reads c v.will_qos in
    let (r2, r4, rq, r20, r40, r80) = r in
    let pw : Bytes = if is_empty c.password then [] else encode_string_with_len c.password in
    let user : Bytes = if is_empty c.username then [] else encode_string_with_len c.username in
    let will : Bytes =
      if c.is_will
      then encode_string_with_len c.will_topic ++ encode_bytes_with_len c.will_message
      else [] in
    decode_conn-eq_ok (flags c) _ _ _ c.client_id (if_will c.is_will c.will_topic)
      (if_will c.is_will c.will_message) c.username c.password (will ++ (user ++ pw)) (user ++ pw)
      pw [] (get_string_data-encode_string_with_len c.client_id _ v.client_id)
      (rw (f, r4)
        (will_if-will c.is_will c.will_topic c.will_message _ v.will_topic v.will_message))
      (rw (f, r80) (text_if-text c.username pw v.username))
      (rw (f, r40) (rw append-nil at (text_if-text c.password [] v.password)))
    ∙ rw (f, r2, r4, rq, r20, two_bytes c.keepalive v.keepalive)
