-- ===== src/Decoder/V5/Misread.antt =====
-- `Decode` on what `WriteTo` wrote for PUBLISH and DISCONNECT of MQTT 5.
use libmqtt.Prelude.{
  Returns, ℕ, ◌/◌, ◌%◌, ◌≤◌, ◌<◌, ◌≡◌, refl, ◌∙◌, sym, arith, [], ◌∷◌, ◌++◌, length, ltb, bit_and,
  Result, ok, err, Error, decode_bad_packet, ◌>>=◌, panic, stuck, if◌then◌else◌, some,
}
use mathlib.Core.Path.{subst}
use libmqtt.Util.Bytes.{
  Bytes, get_uint16, get_binary_data, get_string_data, put_uint16, encode_bytes_with_len,
  encode_string_with_len,
}
use libmqtt.Util.RawProps.{get_raw_props}
use libmqtt.Util.VarInt.{max_msg_size}
use libmqtt.Util.VarInt.RoundTrip.{groups, get_remain_length-groups}
use libmqtt.Props.Conn.{disconn_props}
use libmqtt.Props.Pub.{new_publish_props, set_publish_props}
use libmqtt.Props.Drops.{publish_props-empty}
use libmqtt.Packets.Types.{
  DisconnPacket, PublishPacket, Packet, publish, disconn, version, version_of, proto_version, v5,
}
use libmqtt.Packets.Frame.{frame}
use libmqtt.Packets.Frame.V311.{first_byte}
use libmqtt.Packets.Frame.V5.{body, written_props, bytes_of-frame}
use libmqtt.Packets.Write.{publish_first, publish_payload, bytes_of}
use libmqtt.Packets.Write.Flags.{publish_bits-PublishReads}
use libmqtt.Decoder.V311.{packet_id_if}
use libmqtt.Decoder.Reads.{has_bits}
use libmqtt.Decoder.V5.{decode_publish, decode_v5}
use libmqtt.Decoder.{decode_body, decode}
use libmqtt.Decoder.Total.{decode-Returns}
use libmqtt.Decoder.Frame.{decode-frame}

-- A DISCONNECT of version 5 is written as a body of one byte, if its property block is empty, and the
-- decoder refuses that, whatever follows.
pub decode-disconn_v5 :
    (p : DisconnPacket) (rest : Bytes)
    → version_of p.proto_version ≡ v5
    → disconn_props p.props ≡ ok []
    → (bs : Bytes) × (bytes_of (disconn p) ≡ ok bs)
      × (decode v5 (bs ++ rest) ≡ err decode_bad_packet)
unfolding version proto_version written_props body first_byte
decode-disconn_v5 p rest e o = (
  frame 0xe0 (0 ∷ []),
  bytes_of-frame (disconn p) e tt o (omega arith),
  unfold decode frame groups in rw (get_remain_length-groups 1 (0 ∷ rest) (omega arith)),
)

get_string_data-empty : (x : Bytes) → get_string_data (0 ∷ 0 ∷ x) ≡ ok ([], x)
unfolding get_string_data get_binary_data get_uint16
get_string_data-empty x = ground arith

abbrev value_or : {A : Type 0} → A → Result A → A
value_or a (ok b) = b
value_or a _ = a

-- A PUBLISH without a topic.
abbrev HasNoTopic : Packet → Type 0
HasNoTopic (publish p) = p.topic_name ≡ []
HasNoTopic _ = ⊥

-- An error, or a PUBLISH with the empty topic.
pub data IsMisread : Result (Packet × Bytes) → Type 0 where
  refused : (e : Error) → IsMisread (err e)
  without_topic :
      (q : PublishPacket) (left : Bytes) → q.topic_name ≡ [] → IsMisread (ok (publish q, left))

packet-IsMisread : (p : Packet) (left : Bytes) → HasNoTopic p → IsMisread (ok (p, left))
packet-IsMisread (publish p) left h = without_topic p left h
packet-IsMisread _ left h = absurd h

-- `P` holds of the value, if there is one.
data OfValue {A : Type 0} (P : A → Type 0) : Result A → Type 0 where
  held : (a : A) → P a → OfValue P (ok a)
  no_value : OfValue P panic
  never : OfValue P stuck
  failed : (e : Error) → OfValue P (err e)

>>=-OfValue :
    {A B : Type 0} {P : B → Type 0} (m : Result A) (f : A → Result B)
    → ((a : A) → OfValue P (f a))
    → OfValue P (m >>= f)
>>=-OfValue (ok a) f h = h a
>>=-OfValue (err e) f h = failed e
>>=-OfValue panic f h = no_value
>>=-OfValue stuck f h = never

OfValue-IsMisread :
    (r : Result Packet) (rest : Bytes)
    → OfValue HasNoTopic r
    → Returns {A = Packet × Bytes} (r >>= λ p. ok (p, rest))
    → IsMisread (r >>= λ p. ok (p, rest))
OfValue-IsMisread (ok p) rest (held _ h) k = packet-IsMisread p rest h
OfValue-IsMisread (err e) rest h k = refused e
OfValue-IsMisread panic rest h k = elim k [ ]
OfValue-IsMisread stuck rest h k = elim k [ ]

tail_of :
    (header : ℕ) (i : ℕ × Bytes)
    → OfValue HasNoTopic (do
      (raw, payload) ← get_raw_props i.1
      props ← set_publish_props raw new_publish_props
      ok (
          publish (record {
            payload = payload;
            topic_name = [];
            props = some props;
            packet_id = i.0;
            proto_version = v5;
            is_dup = has_bits 0x08 header;
            qos = bit_and header 0x06 / 2;
            is_retain = has_bits 0x01 header;
          })))
tail_of header i =
    >>=-OfValue (get_raw_props i.1) _
      λ raw. >>=-OfValue (set_publish_props raw.0 new_publish_props) _ λ props. held _ refl

decode_publish-HasNoTopic :
    (header : ℕ) (x : Bytes) → OfValue HasNoTopic (decode_publish header (0 ∷ 0 ∷ x))
unfolding decode_publish
decode_publish-HasNoTopic header x =
    let ids = packet_id_if (ltb 0 (bit_and header 0x06 / 2)) x in
    rw (get_string_data-empty x) (>>=-OfValue ids _ (tail_of header))

decode_v5-publish :
    (p : PublishPacket) (x : Bytes)
    → p.qos < 4
    → decode_v5 (publish_first p) x ≡ decode_publish (publish_first p) x
unfolding decode_v5 publish_first
decode_v5-publish p x h =
    let (k, d, q, r) = publish_bits-PublishReads p.qos p.is_dup p.is_retain h in rw k

-- What stands behind the first byte of the length of the topic.
abbrev payload_back : PublishPacket → Bytes
payload_back p =
    length p.topic_name % 256
    ∷ (p.topic_name ++ ((if ltb 0 p.qos then put_uint16 p.packet_id else []) ++ p.payload))

payload_front :
    (p : PublishPacket) → length p.topic_name < 256 → body (publish p) ≡ 0 ∷ 0 ∷ payload_back p
unfolding body publish_payload encode_string_with_len encode_bytes_with_len
payload_front p h =
    let zero_high : length p.topic_name / 256 % 256 ≡ 0 = omega arith in
    unfold put_uint16 in rw zero_high refl

-- A PUBLISH of version 5 is written with the length of its properties in front of the topic: if the
-- topic has less than 256 bytes, the QoS is below 4 and the body has a legal length, it is written
-- without an error, and whatever follows it, the decoder returns an error or a PUBLISH with the empty
-- topic.
pub decode-publish_v5 :
    (p : PublishPacket) (rest : Bytes)
    → version_of p.proto_version ≡ v5
    → length p.topic_name < 256
    → p.qos < 4
    → length (body (publish p)) ≤ max_msg_size
    → (bs : Bytes) × (bytes_of (publish p) ≡ ok bs) × IsMisread (decode v5 (bs ++ rest))
unfolding version proto_version written_props first_byte decode_body
decode-publish_v5 p rest v t k h =
    let first = publish_first p in
    let x = payload_back p in
    let e = payload_front p t in
    let bs = frame first (body (publish p)) in
    let read : decode v5 (bs ++ rest) ≡ (decode_publish first (0 ∷ 0 ∷ x) >>= λ r. ok (r, rest)) =
      decode-frame v5 first (body (publish p)) rest (rw e (omega arith)) h
      ∙ rw (e, decode_v5-publish p (0 ∷ 0 ∷ x) k) refl in
    (
      bs,
      bytes_of-frame (publish p) v tt (publish_props-empty p.props) h,
      subst IsMisread (sym read) (
          OfValue-IsMisread (decode_publish first (0 ∷ 0 ∷ x)) rest
            (decode_publish-HasNoTopic first x)
            (subst Returns read (decode-Returns v5 (bs ++ rest)))),
    )
