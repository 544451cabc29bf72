-- ===== src/Decoder/V5/RoundTrip.antt =====
-- `Decode` on what `WriteTo` wrote, for the packets of MQTT 5 that are read back.
use libmqtt.Prelude.{◌≤◌, ◌≡◌, refl, ◌∙◌, arith, [], ◌∷◌, ◌++◌, length, some, ok}
use libmqtt.Util.Bytes.{Bytes, IsU16, put_uint16}
use libmqtt.Util.RawProps.{raw_get, raw_props_loop, raw_props_body, get_raw_props, slice}
use libmqtt.Util.VarInt.{max_msg_size, remain_length_loop, get_remain_length}
use libmqtt.Props.Defs.{read_u32, read_u16, read_byte, read_flag, read_text, read_binary, read_user}
use libmqtt.Props.Conn.{new_conn_ack_props, set_conn_ack_props, new_auth_props, set_auth_props}
use libmqtt.Props.Pub.{new_reason_props, set_reason_props}
use libmqtt.Props.Sub.{
  new_subscribe_props, set_subscribe_props, read_sub_id, new_unsub_props, set_unsub_props,
}
use libmqtt.Packets.Types.{
  AckPacket, Packet, conn, conn_ack, publish, pub_ack, pub_recv, pub_rel, pub_comp, subscribe,
  sub_ack, unsub, unsub_ack, ping_req, ping_resp, disconn, auth, version, v5,
}
use libmqtt.Packets.Frame.{frame}
use libmqtt.Packets.Frame.V311.{first_byte}
use libmqtt.Packets.Frame.V5.{body, written_props, HasNoWill, bytes_of-frame}
use libmqtt.Packets.Write.{conn_var_header, topics_payload, names_payload, bytes_of}
use libmqtt.Decoder.Reads.{index, tail_from}
use libmqtt.Decoder.Reads.RoundTrip.{
  AreTopics, AreNames, topics_loop-topics_payload, names_loop-names_payload,
}
use libmqtt.Decoder.V311.Connect.{IsConnect}
use libmqtt.Decoder.V311.RoundTrip.{id_of, tail_two, present_bit}
use libmqtt.Decoder.V5.{
  decode_conn_ack, decode_ack, decode_subscribe, decode_sub_ack, decode_unsub, decode_unsub_ack,
  decode_auth, decode_v5,
}
use libmqtt.Decoder.V5.Connect.{received_conn_v5, get_raw_props-none, decode_conn-conn_fields-v5}
use libmqtt.Decoder.{decode_empty, decode_body, decode}
use libmqtt.Decoder.Frame.{decode-frame, decode-frame_empty}

-- What the receiver has of a packet of version 5: empty properties, and no reason code in the
-- acknowledgements of PUBLISH, where the decoder takes the length of the properties for it. A ping
-- has no version.
unfoldable pub received_ack : AckPacket → AckPacket
received_ack p = record {
  proto_version = v5;
  packet_id = p.packet_id;
  code = 0;
  props = some new_reason_props;
}

unfoldable pub received : Packet → Packet
received (conn p) = conn (received_conn_v5 p)
received (conn_ack p) = conn_ack (record p { proto_version = v5; props = some new_conn_ack_props })
received (publish p) = publish p
received (pub_ack p) = pub_ack (received_ack p)
received (pub_recv p) = pub_recv (received_ack p)
received (pub_rel p) = pub_rel (received_ack p)
received (pub_comp p) = pub_comp (received_ack p)
received (subscribe p) =
    subscribe (record p { proto_version = v5; props = some new_subscribe_props })
received (sub_ack p) = sub_ack (record p { proto_version = v5; props = some new_reason_props })
received (unsub p) = unsub (record p { proto_version = v5; props = some new_unsub_props })
received (unsub_ack p) = unsub_ack (record p { proto_version = v5; props = some new_reason_props })
received (ping_req v) = ping_req 0
received (ping_resp v) = ping_resp 0
received (disconn p) = disconn p
received (auth p) = auth (record p { proto_version = v5; props = some new_auth_props })

-- The fields fit the places that the format has for them. PUBLISH and DISCONNECT are not read back.
abbrev pub IsSendable : Packet → Type 0
IsSendable (conn p) = IsConnect p
IsSendable (conn_ack p) = Unit
IsSendable (publish p) = ⊥
IsSendable (pub_ack p) = IsU16 p.packet_id
IsSendable (pub_recv p) = IsU16 p.packet_id
IsSendable (pub_rel p) = IsU16 p.packet_id
IsSendable (pub_comp p) = IsU16 p.packet_id
IsSendable (subscribe p) = IsU16 p.packet_id × AreTopics p.topics
IsSendable (sub_ack p) = IsU16 p.packet_id
IsSendable (unsub p) = IsU16 p.packet_id × AreNames p.topic_names
IsSendable (unsub_ack p) = IsU16 p.packet_id
IsSendable (ping_req v) = Unit
IsSendable (ping_resp v) = Unit
IsSendable (disconn p) = ⊥
IsSendable (auth p) = Unit

get_raw_props-empty : get_raw_props [] ≡ ok ([], [])
unfolding get_raw_props raw_props_body raw_props_loop slice get_remain_length remain_length_loop
get_raw_props-empty = refl

-- The body of each packet that is read back, and has one.
decode_ack-body :
    (wrap : AckPacket → Packet) (p : AckPacket)
    → IsU16 p.packet_id
    → decode_ack wrap set_reason_props (put_uint16 p.packet_id ++ 0 ∷ [])
      ≡ ok (wrap (received_ack p))
unfolding decode_ack received_ack put_uint16 index tail_from set_reason_props read_text read_user
    raw_get
decode_ack-body wrap p v = rw (id_of p.packet_id (0 ∷ []) v, get_raw_props-empty)

decode_v5-body :
    (p : Packet)
    → IsSendable p
    → 2 ≤ length (body p)
    → decode_v5 (first_byte p) (body p) ≡ ok (received p)
unfolding decode_v5 first_byte body received put_uint16 read_u32 read_u16 read_byte read_flag
    read_text read_binary read_user raw_get read_sub_id
decode_v5-body (conn p) v h = decode_conn-conn_fields-v5 p v
decode_v5-body (conn_ack p) v h =
    unfold decode_conn_ack index set_conn_ack_props in
    rw (tail_two _ _ (0 ∷ []), get_raw_props-none [], present_bit p.present)
decode_v5-body (publish p) v h = absurd v
decode_v5-body (pub_ack p) v h = decode_ack-body pub_ack p v
decode_v5-body (pub_recv p) v h = decode_ack-body pub_recv p v
decode_v5-body (pub_rel p) v h = decode_ack-body pub_rel p v
decode_v5-body (pub_comp p) v h = decode_ack-body pub_comp p v
decode_v5-body (subscribe p) (hi, ht) h =
    unfold decode_subscribe set_subscribe_props in
    rw (
      id_of p.packet_id _ hi,
      tail_two _ _ (0 ∷ topics_payload p.topics),
      get_raw_props-none (topics_payload p.topics),
      topics_loop-topics_payload (length (topics_payload p.topics)) p.topics ht (omega arith),
    )
decode_v5-body (sub_ack p) v h =
    unfold decode_sub_ack set_reason_props in
    rw (id_of p.packet_id _ v, tail_two _ _ (0 ∷ p.codes), get_raw_props-none p.codes)
decode_v5-body (unsub p) (hi, ht) h =
    unfold decode_unsub set_unsub_props in
    rw (
      id_of p.packet_id _ hi,
      tail_two _ _ (0 ∷ names_payload p.topic_names),
      get_raw_props-none (names_payload p.topic_names),
      names_loop-names_payload (length (names_payload p.topic_names)) p.topic_names ht
          (omega arith),
    )
decode_v5-body (unsub_ack p) v h =
    unfold decode_unsub_ack set_reason_props in
    rw (id_of p.packet_id _ v, tail_two _ _ (0 ∷ []), get_raw_props-none [])
decode_v5-body (ping_req n) v h = absurd (omega arith)
decode_v5-body (ping_resp n) v h = absurd (omega arith)
decode_v5-body (disconn p) v h = absurd v
decode_v5-body (auth p) v h =
    unfold decode_auth index tail_from set_auth_props in rw (get_raw_props-none [])

decode-full :
    (p : Packet) (rest : Bytes)
    → IsSendable p
    → 2 ≤ length (body p)
    → length (body p) ≤ max_msg_size
    → decode v5 (frame (first_byte p) (body p) ++ rest) ≡ ok (received p, rest)
unfolding decode_body
decode-full p rest v h k =
    decode-frame v5 (first_byte p) (body p) rest h k ∙ rw (decode_v5-body p v h)

decode-body :
    (p : Packet) (rest : Bytes)
    → IsSendable p
    → length (body p) ≤ max_msg_size
    → decode v5 (frame (first_byte p) (body p) ++ rest) ≡ ok (received p, rest)
unfolding body first_byte received put_uint16 decode_empty conn_var_header
decode-body (publish p) rest v h = absurd v
decode-body (disconn p) rest v h = absurd v
decode-body (ping_req n) rest v h = decode-frame_empty v5 0xc0 rest
decode-body (ping_resp n) rest v h = decode-frame_empty v5 0xd0 rest
decode-body p rest v h = decode-full p rest v (omega arith) h

-- A packet of version 5 without a will, whose property block is empty and whose fields fit, and that
-- is neither PUBLISH nor DISCONNECT, is written without an error, and the decoder reads it back in front
-- of any other input, up to what is not carried.
pub decode-bytes_of-v5 :
    (p : Packet) (rest : Bytes)
    → version p ≡ v5
    → HasNoWill p
    → written_props p ≡ ok []
    → IsSendable p
    → length (body p) ≤ max_msg_size
    → (bs : Bytes) × (bytes_of p ≡ ok bs) × (decode v5 (bs ++ rest) ≡ ok (received p, rest))
decode-bytes_of-v5 p rest e w o v h =
    (frame (first_byte p) (body p), bytes_of-frame p e w o h, decode-body p rest v h)
