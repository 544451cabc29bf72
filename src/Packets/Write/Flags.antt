-- ===== src/Packets/Write/Flags.antt =====
-- The connect flags and the first byte of PUBLISH, taken apart the way the decoder does.
use libmqtt.Prelude.{
  ◌%◌, ◌*◌, refl, true, false, [], bit_or, ℕ, zero, suc, ◌/◌, ◌<◌, ◌≡◌, arith, Bool, ◌&&◌,
  if◌then◌else◌, bit_and,
}
use libmqtt.Util.Bytes.{bool_to_byte}
use libmqtt.Prelude.Bits.{bit_or-second}
use libmqtt.Packets.Types.{ConnPacket}
use libmqtt.Packets.Write.{flag_if, flag_bits, publish_bits, clean, flags}
use libmqtt.Decoder.Reads.{has_bits}

-- The six reads of the decoder, for one value of the QoS.
abbrev pub Reads : ℕ → Bool → Bool → Bool → Bool → Bool → Type 0
Reads q c w r p u =
    let b = flag_bits c w q r p u in
    (has_bits 0x02 b ≡ c)
    × (has_bits 0x04 b ≡ w)
    × (bit_and b 0x18 / 8 ≡ (if w then q else 0))
    × (has_bits 0x20 b ≡ (w && r))
    × (has_bits 0x40 b ≡ p)
    × (has_bits 0x80 b ≡ u)

-- The decoder reads every connect flag back from the byte, for a QoS of the will below 4. Those of the
-- will read as 0 and false where there is none.
pub flag_bits-Reads : (q : ℕ) (c w r p u : Bool) → q < 4 → Reads q c w r p u
unfolding flag_bits
flag_bits-Reads zero c w r p u h = ground arith
flag_bits-Reads (suc zero) c w r p u h = ground arith
flag_bits-Reads (suc (suc zero)) c w r p u h = ground arith
flag_bits-Reads (suc (suc (suc zero))) c w r p u h = ground arith
flag_bits-Reads (suc (suc (suc (suc q)))) c w r p u h = absurd (omega arith)

-- The header of PUBLISH: its type, and the reads of the decoder.
abbrev pub PublishReads : Bool → Bool → ℕ → Type 0
PublishReads dup retain q =
    let b = publish_bits dup retain q in
    (b / 16 ≡ 3) × (has_bits 0x08 b ≡ dup) × (bit_and b 0x06 / 2 ≡ q) × (has_bits 0x01 b ≡ retain)

-- The decoder reads the type, the DUP flag, the QoS and the RETAIN flag of a PUBLISH back from its
-- first byte, for a QoS below 4.
pub publish_bits-PublishReads : (q : ℕ) (dup retain : Bool) → q < 4 → PublishReads dup retain q
unfolding publish_bits bool_to_byte
publish_bits-PublishReads zero dup retain h = ground arith
publish_bits-PublishReads (suc zero) dup retain h = ground arith
publish_bits-PublishReads (suc (suc zero)) dup retain h = ground arith
publish_bits-PublishReads (suc (suc (suc zero))) dup retain h = ground arith
publish_bits-PublishReads (suc (suc (suc (suc q)))) dup retain h = absurd (omega arith)

flag_if-second : (b : Bool) (bits n : ℕ) → n / 2 % 2 ≡ 1 → flag_if b bits n / 2 % 2 ≡ 1
flag_if-second true bits n h = bit_or-second n bits h
flag_if-second false bits n h = h

flag_bits-second : (w : Bool) (q : ℕ) (r p u : Bool) → flag_bits true w q r p u / 2 % 2 ≡ 1
unfolding flag_bits
flag_bits-second true q r p u = flag_if-second u 0x80 _ (
    flag_if-second p 0x40 _
      (flag_if-second r 0x20 _ (bit_or-second (bit_or 2 4) (q * 8 % 256) refl)))
flag_bits-second false q r p u = flag_if-second u 0x80 _ (flag_if-second p 0x40 2 refl)

-- The flags of a packet without a client id have the bit of the clean session.
pub flags-second : (c : ConnPacket) → c.client_id ≡ [] → flags c / 2 % 2 ≡ 1
unfolding flags clean
flags-second c e = rw e (flag_bits-second c.is_will c.will_qos c.will_retain _ _)
