-- ===== src/Packets/Frame/Wire.antt =====
-- The bytes of each packet of MQTT 3.1.1, told from its fields alone.
use libmqtt.Prelude.{
  ℕ, zero, suc, ◌+◌, ◌*◌, ◌/◌, ◌%◌, ◌<◌, ◌≤◌, ◌≡◌, refl, ◌∙◌, ap, arith, Bool, true, false, List,
  [], ◌∷◌, ◌++◌, length, ltb, if◌then◌else◌, ok,
}
use libmqtt.Util.Bytes.{
  Bytes, bool_to_byte, put_uint16, encode_bytes_with_len, encode_string_with_len,
}
use libmqtt.Util.VarInt.{max_msg_size}
use libmqtt.Packets.Types.{
  Topic, ConnPacket, Packet, conn, conn_ack, publish, pub_ack, pub_recv, pub_rel, pub_comp,
  subscribe, sub_ack, unsub, unsub_ack, ping_req, ping_resp, disconn, auth, version, v311,
}
use libmqtt.Packets.Writer.{buffer}
use libmqtt.Packets.Write.{
  is_empty, clean, flag_bits, flags, conn_fields, conn_var_header, publish_bits, publish_first,
  publish_payload, topics_payload, names_payload, write_to,
}
use libmqtt.Packets.Frame.{frame}
use libmqtt.Packets.Frame.V311.{is_auth, first_byte, body, write_to-frame}

-- A number in two bytes, the high one first; a text behind its length; a text that may be missing.
abbrev pub two_bytes : ℕ → Bytes
two_bytes n = n / 256 % 256 ∷ n % 256 ∷ []

abbrev pub text : Bytes → Bytes
text w = two_bytes (length w) ++ w

abbrev pub text_if_any : Bytes → Bytes
text_if_any [] = []
text_if_any (b ∷ w) = text (b ∷ w)

abbrev pub bit : Bool → ℕ → ℕ
bit true v = v
bit false v = 0

abbrev pub bit_if_any : Bytes → ℕ → ℕ
bit_if_any [] v = 0
bit_if_any (b ∷ w) v = v

-- A client without an id asks for a clean session.
abbrev pub clean_bit : Bool → Bytes → ℕ
clean_bit c [] = 2
clean_bit c (b ∷ id) = bit c 2

abbrev pub connect_flags : ConnPacket → ℕ
connect_flags c =
    clean_bit c.clean_session c.client_id
    + bit c.is_will (4 + c.will_qos * 8 + bit c.will_retain 32)
    + bit_if_any c.password 64
    + bit_if_any c.username 128

abbrev pub will_part : Bool → ConnPacket → Bytes
will_part true c = text c.will_topic ++ text c.will_message
will_part false c = []

-- The packet id, which a QoS above 0 has.
abbrev pub id_part : ℕ → ℕ → Bytes
id_part zero id = []
id_part (suc qos) id = two_bytes id

abbrev pub topics_part : List Topic → Bytes
topics_part [] = []
topics_part (t ∷ ts) = text t.name ++ (t.qos ∷ topics_part ts)

abbrev pub names_part : List Bytes → Bytes
names_part [] = []
names_part (t ∷ ts) = text t ++ names_part ts

-- The first byte: the type in its upper half, and flags.
abbrev pub wire_first : Packet → ℕ
wire_first (conn p) = 1 * 16
wire_first (conn_ack p) = 2 * 16
wire_first (publish p) = 3 * 16 + bit p.is_dup 8 + p.qos * 2 + bit p.is_retain 1
wire_first (pub_ack p) = 4 * 16
wire_first (pub_recv p) = 5 * 16
wire_first (pub_rel p) = 6 * 16 + 2
wire_first (pub_comp p) = 7 * 16
wire_first (subscribe p) = 8 * 16 + 2
wire_first (sub_ack p) = 9 * 16
wire_first (unsub p) = 10 * 16 + 2
wire_first (unsub_ack p) = 11 * 16
wire_first (ping_req v) = 12 * 16
wire_first (ping_resp v) = 13 * 16
wire_first (disconn p) = 14 * 16
wire_first (auth p) = 15 * 16

abbrev pub wire_body : Packet → Bytes
wire_body (conn p) =
    0
    ∷ 4
    ∷ b'M'
    ∷ b'Q'
    ∷ b'T'
    ∷ b'T'
    ∷ 4
    ∷ connect_flags p
    ∷ (two_bytes p.keepalive
        ++ (text p.client_id
            ++ (will_part p.is_will p ++ (text_if_any p.username ++ text_if_any p.password))))
wire_body (conn_ack p) = bit p.present 1 ∷ p.code ∷ []
wire_body (publish p) = text p.topic_name ++ (id_part p.qos p.packet_id ++ p.payload)
wire_body (pub_ack p) = two_bytes p.packet_id
wire_body (pub_recv p) = two_bytes p.packet_id
wire_body (pub_rel p) = two_bytes p.packet_id
wire_body (pub_comp p) = two_bytes p.packet_id
wire_body (subscribe p) = two_bytes p.packet_id ++ topics_part p.topics
wire_body (sub_ack p) = two_bytes p.packet_id ++ p.codes
wire_body (unsub p) = two_bytes p.packet_id ++ names_part p.topic_names
wire_body (unsub_ack p) = two_bytes p.packet_id
wire_body (ping_req v) = []
wire_body (ping_resp v) = []
wire_body (disconn p) = []
wire_body (auth p) = []

-- A QoS of two bits, also that of the will.
abbrev pub HasQosBits : Packet → Type 0
HasQosBits (conn p) = p.will_qos < 4
HasQosBits (publish p) = p.qos < 4
HasQosBits _ = Unit

publish_bits-sum :
    (q : ℕ) (dup retain : Bool)
    → q < 4
    → publish_bits dup retain q ≡ 3 * 16 + bit dup 8 + q * 2 + bit retain 1
unfolding publish_bits bool_to_byte
publish_bits-sum zero dup retain h = ground arith
publish_bits-sum (suc zero) dup retain h = ground arith
publish_bits-sum (suc (suc zero)) dup retain h = ground arith
publish_bits-sum (suc (suc (suc zero))) dup retain h = ground arith
publish_bits-sum (suc (suc (suc (suc q)))) dup retain h = absurd (omega arith)

flag_bits-sum :
    (q : ℕ) (c w r p u : Bool)
    → q < 4
    → flag_bits c w q r p u ≡ bit c 2 + bit w (4 + q * 8 + bit r 32) + bit p 64 + bit u 128
unfolding flag_bits
flag_bits-sum zero c w r p u h = ground arith
flag_bits-sum (suc zero) c w r p u h = ground arith
flag_bits-sum (suc (suc zero)) c w r p u h = ground arith
flag_bits-sum (suc (suc (suc zero))) c w r p u h = ground arith
flag_bits-sum (suc (suc (suc (suc q)))) c w r p u h = absurd (omega arith)

any-bit : (w : Bytes) (v : ℕ) → bit (if is_empty w then false else true) v ≡ bit_if_any w v
any-bit [] v = refl
any-bit (b ∷ w) v = refl

pub clean-if :
    (b : Bool) (c : ConnPacket)
    → (if b then record c { clean_session = true } else c).clean_session
      ≡ (if b then true else c.clean_session)
clean-if true c = refl
clean-if false c = refl

clean-bit : (c : Bool) (id : Bytes) → bit (if is_empty id then true else c) 2 ≡ clean_bit c id
clean-bit c [] = refl
clean-bit c (b ∷ id) = refl

sum_of : {a a' c c' d d' : ℕ} (b : ℕ) → a ≡ a' → c ≡ c' → d ≡ d' → a + b + c + d ≡ a' + b + c' + d'
sum_of b h k l = omega arith

flags-connect_flags : (c : ConnPacket) → c.will_qos < 4 → flags c ≡ connect_flags c
unfolding flags clean
flags-connect_flags c h =
    flag_bits-sum c.will_qos _ c.is_will c.will_retain _ _ h
    ∙ sum_of (bit c.is_will (4 + c.will_qos * 8 + bit c.will_retain 32))
        (ap (λ b. bit b 2) (clean-if (is_empty c.client_id) c)
          ∙ clean-bit c.clean_session c.client_id)
        (any-bit c.password 64) (any-bit c.username 128)

id_part-if : (qos id : ℕ) → (if ltb 0 qos then put_uint16 id else []) ≡ id_part qos id
unfolding put_uint16
id_part-if zero id = refl
id_part-if (suc qos) id = ground arith

append_same : {x x' y y' : Bytes} → x ≡ x' → y ≡ y' → x ++ y ≡ x' ++ y'
append_same h k = cc

if-text : (w : Bytes) → (if is_empty w then [] else encode_string_with_len w) ≡ text_if_any w
unfolding encode_string_with_len encode_bytes_with_len put_uint16
if-text [] = refl
if-text (b ∷ w) = refl

if-will :
    (b : Bool) (c : ConnPacket)
    → (if b
        then [] ++ (encode_string_with_len c.will_topic ++ encode_bytes_with_len c.will_message)
        else [])
      ≡ will_part b c
unfolding encode_string_with_len encode_bytes_with_len put_uint16
if-will true c = refl
if-will false c = refl

conn_fields-text :
    (c : ConnPacket)
    → conn_fields c []
      ≡ text c.client_id
        ++ (will_part c.is_will c ++ (text_if_any c.username ++ text_if_any c.password))
unfolding conn_fields encode_string_with_len encode_bytes_with_len put_uint16
conn_fields-text c =
    ap (λ x. text c.client_id ++ x)
      (append_same (if-will c.is_will c) (append_same (if-text c.username) (if-text c.password)))

topics_payload-topics_part : (ts : List Topic) → topics_payload ts ≡ topics_part ts
unfolding topics_payload encode_string_with_len encode_bytes_with_len put_uint16
topics_payload-topics_part [] = refl
topics_payload-topics_part (t ∷ ts) =
    ap (λ x. text t.name ++ (t.qos ∷ x)) (topics_payload-topics_part ts)

names_payload-names_part : (ts : List Bytes) → names_payload ts ≡ names_part ts
unfolding names_payload encode_string_with_len encode_bytes_with_len put_uint16
names_payload-names_part [] = refl
names_payload-names_part (t ∷ ts) = ap (λ x. text t ++ x) (names_payload-names_part ts)

bool_to_byte-bit : (b : Bool) → bool_to_byte b ≡ bit b 1
unfolding bool_to_byte
bool_to_byte-bit true = refl
bool_to_byte-bit false = refl

first_byte-wire_first : (p : Packet) → HasQosBits p → first_byte p ≡ wire_first p
unfolding first_byte publish_first
first_byte-wire_first (publish p) h = publish_bits-sum p.qos p.is_dup p.is_retain h
first_byte-wire_first _ h = refl

body-wire_body : (p : Packet) → HasQosBits p → body p ≡ wire_body p
unfolding body conn_var_header publish_payload encode_string_with_len encode_bytes_with_len
    put_uint16
body-wire_body (conn p) h =
    ap
      (λ f. 0 ∷ 4 ∷ b'M' ∷ b'Q' ∷ b'T' ∷ b'T' ∷ 4 ∷ f ∷ (two_bytes p.keepalive ++ conn_fields p []))
      (flags-connect_flags p h)
    ∙ ap
        (λ x.
          0 ∷ 4 ∷ b'M' ∷ b'Q' ∷ b'T' ∷ b'T' ∷ 4 ∷ connect_flags p ∷ (two_bytes p.keepalive ++ x))
        (conn_fields-text p)
body-wire_body (conn_ack p) h = ap (λ b. b ∷ p.code ∷ []) (bool_to_byte-bit p.present)
body-wire_body (publish p) h =
    ap (λ x. text p.topic_name ++ (x ++ p.payload)) (id_part-if p.qos p.packet_id)
body-wire_body (subscribe p) h =
    ap (λ x. two_bytes p.packet_id ++ x) (topics_payload-topics_part p.topics)
body-wire_body (unsub p) h =
    ap (λ x. two_bytes p.packet_id ++ x) (names_payload-names_part p.topic_names)
body-wire_body _ h = refl

-- `WriteTo` of a packet of version 3.1.1 that is no AUTH appends one frame to the buffer, and returns no
-- error: the byte of its type and flags, the length of its body, and its fields in their order, if the
-- body has a legal length and a QoS, also that of a will, is below 4.
pub write_to-wire :
    (p : Packet) (bs : Bytes)
    → version p ≡ v311
    → is_auth p ≡ false
    → HasQosBits p
    → length (wire_body p) ≤ max_msg_size
    → write_to p (buffer bs) ≡ (buffer (bs ++ frame (wire_first p) (wire_body p)), ok tt)
write_to-wire p bs v a q h =
    let e = body-wire_body p q in
    let small : length (body p) ≤ max_msg_size = rw e h in
    write_to-frame p bs v a small ∙ rw (e, first_byte-wire_first p q) refl
