-- ===== src/Decoder/Reads.antt =====
-- decoder.go: the reads that both versions make.
pub mod Total
pub mod RoundTrip
use libmqtt.Prelude.{
  ℕ, zero, suc, ◌+◌, Bool, true, false, List, [], ◌∷◌, leb, ◌==◌, if◌then◌else◌, length, drop,
  bit_and, Result, ok, err, panic, stuck, ◌>>=◌, ◌>>◌, guard, decode_bad_packet,
}
use libmqtt.Util.Bytes.{Bytes, get_string_data, get_binary_data}
use libmqtt.Packets.Types.{Topic}

-- `body[i]` and `body[n:]`.
unfoldable pub index : Bytes → ℕ → Result ℕ
index [] i = panic
index (b ∷ bs) zero = ok b
index (b ∷ bs) (suc i) = index bs i

unfoldable pub tail_from : ℕ → Bytes → Result Bytes
tail_from n bs = if leb n (length bs) then ok (drop n bs) else panic

-- `b & mask == mask`.
abbrev pub has_bits : ℕ → ℕ → Bool
has_bits mask b = bit_and b mask == mask

-- A text that is there if the connect flags say so.
unfoldable pub text_if : Bool → Bytes → Result (Bytes × Bytes)
text_if there bs = if there then get_string_data bs else ok ([], bs)

-- The will topic and message, if there is a will.
unfoldable pub will_if : Bool → Bytes → Result (Bytes × Bytes × Bytes)
will_if there bs =
    if there
    then (do
      (topic, bs') ← get_string_data bs
      (message, bs'') ← get_binary_data bs'
      ok (topic, message, bs''))
    else ok ([], [], bs)

-- `for len(body) > 0`: every round reads two bytes at least, so the length is enough fuel.
unfoldable pub topics_loop : ℕ → Bytes → Result (List Topic)
topics_loop fuel [] = ok []
topics_loop zero (b ∷ bs) = stuck
topics_loop (suc fuel) (b ∷ bs) = do
  (name, bs') ← get_string_data (b ∷ bs)
  guard (leb 1 (length bs')) decode_bad_packet
  qos ← index bs' 0
  ts ← topics_loop fuel (drop 1 bs')
  ok (record { name = name; qos = qos } ∷ ts)

unfoldable pub names_loop : ℕ → Bytes → Result (List Bytes)
names_loop fuel [] = ok []
names_loop zero (b ∷ bs) = stuck
names_loop (suc fuel) (b ∷ bs) = do
  (name, bs') ← get_string_data (b ∷ bs)
  names ← names_loop fuel bs'
  ok (name ∷ names)
