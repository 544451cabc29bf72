-- ===== src/Decoder/V311/RoundTrip.antt =====
-- `Decode` on what `WriteTo` wrote, for every packet of MQTT 3.1.1.
use libmqtt.Prelude.{
  ℕ, suc, ◌/◌, ◌%◌, ◌≤◌, ◌<◌, ◌≡◌, refl, ◌∙◌, arith, Bool, true, false, [], ◌∷◌, ◌++◌, length,
  length-append, if◌then◌else◌, ltb, guard-leb, decode_bad_packet, none, ok,
}
use libmqtt.Util.Bytes.{Bytes, IsU16, bool_to_byte, put_uint16, get_uint16, encode_string_with_len}
use libmqtt.Util.Bytes.RoundTrip.{
  get_string_data-encode_string_with_len, get_uint16-put_uint16, length-encode_string_with_len,
}
use libmqtt.Util.VarInt.{max_msg_size}
use libmqtt.Packets.Types.{
  AckPacket, PublishPacket, Packet, conn, conn_ack, publish, pub_ack, pub_recv, pub_rel, pub_comp,
  subscribe, sub_ack, unsub, unsub_ack, ping_req, ping_resp, disconn, auth, version, v311,
}
use libmqtt.Packets.Frame.{frame}
use libmqtt.Packets.Frame.V311.{first_byte, body, is_auth, bytes_of-frame}
use libmqtt.Packets.Write.{
  conn_var_header, publish_first, publish_payload, topics_payload, names_payload, bytes_of,
}
use libmqtt.Packets.Write.Flags.{publish_bits-PublishReads}
use libmqtt.Decoder.Reads.{index, tail_from, has_bits}
use libmqtt.Decoder.Reads.RoundTrip.{
  AreTopics, AreNames, topics_loop-topics_payload, names_loop-names_payload,
}
use libmqtt.Decoder.V311.{
  decode_conn_ack, packet_id_if, decode_publish, decode_ack, decode_subscribe, decode_sub_ack,
  decode_unsub, decode_unsub_ack, decode_v311,
}
use libmqtt.Decoder.V311.Connect.{IsConnect, received_conn, decode_conn-conn_fields}
use libmqtt.Decoder.{decode_empty, decode_body, decode}
use libmqtt.Decoder.Frame.{decode-frame, decode-frame_empty}

-- What the receiver has of a packet of version 3.1.1: no properties and no reason code, which only
-- version 5 sends, and no packet id in a PUBLISH of QoS 0.
unfoldable pub received_ack : AckPacket → AckPacket
received_ack p = record { proto_version = 0; packet_id = p.packet_id; code = 0; props = none }

unfoldable pub received : Packet → Packet
received (conn p) = conn (received_conn p)
received (conn_ack p) =
    conn_ack (record { proto_version = 0; present = p.present; code = p.code; props = none })
received (publish p) = publish (record p {
  props = none;
  packet_id = if ltb 0 p.qos then p.packet_id else 0;
  proto_version = 0;
})
received (pub_ack p) = pub_ack (received_ack p)
received (pub_recv p) = pub_recv (received_ack p)
received (pub_rel p) = pub_rel (received_ack p)
received (pub_comp p) = pub_comp (received_ack p)
received (subscribe p) =
    subscribe
      (record { proto_version = 0; packet_id = p.packet_id; topics = p.topics; props = none })
received (sub_ack p) =
    sub_ack (record { proto_version = 0; packet_id = p.packet_id; codes = p.codes; props = none })
received (unsub p) = unsub (record {
  proto_version = 0;
  packet_id = p.packet_id;
  topic_names = p.topic_names;
  props = none;
})
received (unsub_ack p) =
    unsub_ack (record { proto_version = 0; packet_id = p.packet_id; props = none })
received (ping_req v) = ping_req 0
received (ping_resp v) = ping_resp 0
received (disconn p) = disconn (record { proto_version = 0; code = 0; props = none })
received (auth p) = auth p

-- The fields fit the places that the format has for them. AUTH is no packet of this version.
abbrev pub IsSendable : Packet → Type 0
IsSendable (conn p) = IsConnect p
IsSendable (conn_ack p) = Unit
IsSendable (publish p) = IsU16 (length p.topic_name) × IsU16 p.packet_id × (p.qos < 4)
IsSendable (pub_ack p) = IsU16 p.packet_id
IsSendable (pub_recv p) = IsU16 p.packet_id
IsSendable (pub_rel p) = IsU16 p.packet_id
IsSendable (pub_comp p) = IsU16 p.packet_id
IsSendable (subscribe p) = IsU16 p.packet_id × AreTopics p.topics
IsSendable (sub_ack p) = IsU16 p.packet_id
IsSendable (unsub p) = IsU16 p.packet_id × AreNames p.topic_names
IsSendable (unsub_ack p) = IsU16 p.packet_id
IsSendable (ping_req v) = Unit
IsSendable (ping_resp v) = Unit
IsSendable (disconn p) = Unit
IsSendable (auth p) = ⊥

pub tail_two : (a b : ℕ) (bs : Bytes) → tail_from 2 (a ∷ b ∷ bs) ≡ ok bs
unfolding tail_from
tail_two a b bs = ground arith

pub id_of :
    (id : ℕ) (rest : Bytes) → IsU16 id → get_uint16 (id / 256 % 256 ∷ id % 256 ∷ rest) ≡ ok id
unfolding put_uint16
id_of id rest h = get_uint16-put_uint16 id rest h

packet_id_if-payload :
    (p : PublishPacket) (rest : Bytes)
    → IsU16 p.packet_id
    → packet_id_if (ltb 0 p.qos) ((if ltb 0 p.qos then put_uint16 p.packet_id else []) ++ rest)
      ≡ ok (if ltb 0 p.qos then p.packet_id else 0, rest)
unfolding packet_id_if put_uint16
packet_id_if-payload p rest h = ground (
  arith,
  guard-leb 2 (suc (suc (length rest))) decode_bad_packet,
  id_of p.packet_id rest h,
  tail_two (p.packet_id / 256 % 256) (p.packet_id % 256) rest,
)

decode_publish-payload :
    (p : PublishPacket)
    → IsSendable (publish p)
    → decode_v311 (publish_first p) (publish_payload p) ≡ ok (received (publish p))
unfolding decode_v311 decode_publish publish_first publish_payload received
decode_publish-payload p (ht, hi, hq) =
    let (k, d, q, r) = publish_bits-PublishReads p.qos p.is_dup p.is_retain hq in
    rw (
      k,
      get_string_data-encode_string_with_len p.topic_name _ ht,
      q,
      packet_id_if-payload p p.payload hi,
      d,
      r,
    )

pub present_bit : (b : Bool) → has_bits 0x01 (bool_to_byte b) ≡ b
unfolding bool_to_byte
present_bit true = refl
present_bit false = refl

-- The body of each packet that has one is read back.
decode_v311-body :
    (p : Packet)
    → IsSendable p
    → 2 ≤ length (body p)
    → decode_v311 (first_byte p) (body p) ≡ ok (received p)
unfolding decode_v311 first_byte body received received_ack put_uint16
decode_v311-body (conn p) v h = decode_conn-conn_fields p v
decode_v311-body (conn_ack p) v h = unfold decode_conn_ack index in rw (present_bit p.present)
decode_v311-body (publish p) v h = decode_publish-payload p v
decode_v311-body (pub_ack p) v h = unfold decode_ack in rw (id_of p.packet_id [] v)
decode_v311-body (pub_recv p) v h = unfold decode_ack in rw (id_of p.packet_id [] v)
decode_v311-body (pub_rel p) v h = unfold decode_ack in rw (id_of p.packet_id [] v)
decode_v311-body (pub_comp p) v h = unfold decode_ack in rw (id_of p.packet_id [] v)
decode_v311-body (subscribe p) (hi, ht) h =
    unfold decode_subscribe in
    rw (
      id_of p.packet_id _ hi,
      tail_two _ _ (topics_payload p.topics),
      topics_loop-topics_payload (length (topics_payload p.topics)) p.topics ht (omega arith),
    )
decode_v311-body (sub_ack p) v h =
    unfold decode_sub_ack in rw (id_of p.packet_id _ v, tail_two _ _ p.codes)
decode_v311-body (unsub p) (hi, ht) h =
    unfold decode_unsub in
    rw (
      id_of p.packet_id _ hi,
      tail_two _ _ (names_payload p.topic_names),
      names_loop-names_payload (length (names_payload p.topic_names)) p.topic_names ht
          (omega arith),
    )
decode_v311-body (unsub_ack p) v h = unfold decode_unsub_ack in rw (id_of p.packet_id [] v)
decode_v311-body (ping_req n) v h = absurd (omega arith)
decode_v311-body (ping_resp n) v h = absurd (omega arith)
decode_v311-body (disconn p) v h = absurd (omega arith)
decode_v311-body (auth p) v h = absurd v

decode-full :
    (p : Packet) (rest : Bytes)
    → IsSendable p
    → 2 ≤ length (body p)
    → length (body p) ≤ max_msg_size
    → decode v311 (frame (first_byte p) (body p) ++ rest) ≡ ok (received p, rest)
unfolding decode_body
decode-full p rest v h k =
    decode-frame v311 (first_byte p) (body p) rest h k ∙ rw (decode_v311-body p v h)

publish_payload_long : (p : PublishPacket) → 2 ≤ length (publish_payload p)
unfolding publish_payload
publish_payload_long p = omega (
  arith,
  length-encode_string_with_len p.topic_name,
  length-append (encode_string_with_len p.topic_name),
)

-- A packet is sent with a body of two bytes or more, or with none.
decode-body :
    (p : Packet) (rest : Bytes)
    → IsSendable p
    → length (body p) ≤ max_msg_size
    → decode v311 (frame (first_byte p) (body p) ++ rest) ≡ ok (received p, rest)
unfolding body first_byte received put_uint16 decode_empty conn_var_header
decode-body (conn p) rest v h = decode-full (conn p) rest v (omega arith) h
decode-body (conn_ack p) rest v h = decode-full (conn_ack p) rest v (omega arith) h
decode-body (pub_ack p) rest v h = decode-full (pub_ack p) rest v (omega arith) h
decode-body (pub_recv p) rest v h = decode-full (pub_recv p) rest v (omega arith) h
decode-body (pub_rel p) rest v h = decode-full (pub_rel p) rest v (omega arith) h
decode-body (pub_comp p) rest v h = decode-full (pub_comp p) rest v (omega arith) h
decode-body (subscribe p) rest v h = decode-full (subscribe p) rest v (omega arith) h
decode-body (sub_ack p) rest v h = decode-full (sub_ack p) rest v (omega arith) h
decode-body (unsub p) rest v h = decode-full (unsub p) rest v (omega arith) h
decode-body (unsub_ack p) rest v h = decode-full (unsub_ack p) rest v (omega arith) h
decode-body (publish p) rest v h = decode-full (publish p) rest v (publish_payload_long p) h
decode-body (ping_req n) rest v h = decode-frame_empty v311 0xc0 rest
decode-body (ping_resp n) rest v h = decode-frame_empty v311 0xd0 rest
decode-body (disconn p) rest v h = decode-frame_empty v311 0xe0 rest
decode-body (auth p) rest v h = absurd v

pub is_auth-IsSendable : (p : Packet) → IsSendable p → is_auth p ≡ false
is_auth-IsSendable (auth p) v = absurd v
is_auth-IsSendable (conn p) v = refl
is_auth-IsSendable _ v = refl

-- A packet of version 3.1.1 whose fields fit is written without an error, and the decoder reads it
-- back in front of any other input, up to what the format does not carry.
pub decode-bytes_of :
    (p : Packet) (rest : Bytes)
    → version p ≡ v311
    → IsSendable p
    → length (body p) ≤ max_msg_size
    → (bs : Bytes) × (bytes_of p ≡ ok bs) × (decode v311 (bs ++ rest) ≡ ok (received p, rest))
decode-bytes_of p rest e v h = (
  frame (first_byte p) (body p),
  bytes_of-frame p e (is_auth-IsSendable p v) h,
  decode-body p rest v h,
)
