-- ===== src/Decoder/Reads/RoundTrip.antt =====
-- The decoder's loops read back what the payloads of SUBSCRIBE and UNSUBSCRIBE hold.
use libmqtt.Prelude.{
  ℕ, zero, suc, ◌+◌, ◌≤◌, ◌<◌, ◌≡◌, refl, ◌∙◌, arith, List, [], ◌∷◌, ◌++◌, length, length-append,
  ok, ◌>>=◌, guard-leb, decode_bad_packet,
}
use libmqtt.Util.Bytes.{Bytes, IsU16, get_string_data, encode_string_with_len}
use libmqtt.Util.Bytes.RoundTrip.{
  get_string_data-encode_string_with_len, length-encode_string_with_len,
}
use libmqtt.Packets.Types.{Topic}
use libmqtt.Packets.Write.{topics_payload, names_payload}
use libmqtt.Decoder.Reads.{index, topics_loop, names_loop}

-- One text of a length that the format can say.
abbrev pub AreTopics : List Topic → Type 0
AreTopics [] = Unit
AreTopics (t ∷ ts) = IsU16 (length t.name) × AreTopics ts

abbrev pub AreNames : List Bytes → Type 0
AreNames [] = Unit
AreNames (t ∷ ts) = IsU16 (length t) × AreNames ts

topics_step :
    (fuel : ℕ) (bs : Bytes) (name : Bytes) (qos : ℕ) (rest : Bytes)
    → 0 < length bs
    → get_string_data bs ≡ ok (name, qos ∷ rest)
    → topics_loop (suc fuel) bs
      ≡ (topics_loop fuel rest >>= λ ts. ok (record { name = name; qos = qos } ∷ ts))
unfolding topics_loop index
topics_step fuel [] name qos rest h e = absurd (omega arith)
topics_step fuel (b ∷ bs) name qos rest h e =
    rw (e, guard-leb 1 (suc (length rest)) decode_bad_packet (omega arith))

names_step :
    (fuel : ℕ) (bs : Bytes) (name rest : Bytes)
    → 0 < length bs
    → get_string_data bs ≡ ok (name, rest)
    → names_loop (suc fuel) bs ≡ (names_loop fuel rest >>= λ names. ok (name ∷ names))
unfolding names_loop
names_step fuel [] name rest h e = absurd (omega arith)
names_step fuel (b ∷ bs) name rest h e = rw e

-- A text in front of the rest takes two bytes at least.
length-text-append :
    (d rest : Bytes) → length (encode_string_with_len d ++ rest) ≡ length d + 2 + length rest
length-text-append d rest =
    omega (arith, length-append (encode_string_with_len d) rest, length-encode_string_with_len d)

-- The topics of a SUBSCRIBE whose names fit are read back from its payload, if the fuel covers it.
pub topics_loop-topics_payload :
    (fuel : ℕ) (ts : List Topic)
    → AreTopics ts
    → length (topics_payload ts) ≤ fuel
    → topics_loop fuel (topics_payload ts) ≡ ok ts
unfolding topics_payload
topics_loop-topics_payload fuel [] h k = unfold topics_loop in refl
topics_loop-topics_payload zero (t ∷ ts) h k =
    absurd (omega (arith, length-text-append t.name (t.qos ∷ topics_payload ts)))
topics_loop-topics_payload (suc fuel) (t ∷ ts) h k =
    let size = length-text-append t.name (t.qos ∷ topics_payload ts) in
    topics_step fuel _ t.name t.qos (topics_payload ts) (omega (arith, size))
      (get_string_data-encode_string_with_len t.name (t.qos ∷ topics_payload ts) h.0)
    ∙ rw (topics_loop-topics_payload fuel ts h.1 (omega (arith, size, k)))

-- The topic names of an UNSUBSCRIBE are read back from its payload, if each fits its length prefix
-- and the fuel covers the payload.
pub names_loop-names_payload :
    (fuel : ℕ) (ts : List Bytes)
    → AreNames ts
    → length (names_payload ts) ≤ fuel
    → names_loop fuel (names_payload ts) ≡ ok ts
unfolding names_payload
names_loop-names_payload fuel [] h k = unfold names_loop in refl
names_loop-names_payload zero (t ∷ ts) h k =
    absurd (omega (arith, length-text-append t (names_payload ts)))
names_loop-names_payload (suc fuel) (t ∷ ts) h k =
    let size = length-text-append t (names_payload ts) in
    names_step fuel _ t (names_payload ts) (omega (arith, size))
      (get_string_data-encode_string_with_len t (names_payload ts) h.0)
    ∙ rw (names_loop-names_payload fuel ts h.1 (omega (arith, size, k)))
