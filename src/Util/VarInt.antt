-- ===== src/Util/VarInt.antt =====
-- util.go: the variable-length integers of the packet header and of the properties.
pub mod RoundTrip
pub mod Local
use libmqtt.Prelude.{
  ℕ, zero, suc, ◌+◌, ◌*◌, ◌/◌, ◌%◌, ◌^◌, bit_and, bit_or, ◌∷◌, [], ◌++◌, ltb, ◌==◌, if◌then◌else◌,
  Result, ok, err, stuck, encode_large_packet, ℤ, pos, negsuc,
}
use libmqtt.Util.Bytes.{Bytes}

-- The largest message, 2 ^ 28 - 1.
abbrev pub max_msg_size : ℕ
max_msg_size = 268435455

-- One byte of the encoding: seven bits of `n`, and the top bit if more follow.
unfoldable pub encoded_byte : ℕ → ℕ
encoded_byte n = if ltb 0 (n / 128) then bit_or (n % 128) 128 else n % 128

-- `for n > 0`, with fuel.
unfoldable pub var_int_loop : ℕ → ℕ → Bytes → Result Bytes
unfolding encoded_byte
var_int_loop zero n ret = if n == 0 then ok ret else stuck
var_int_loop (suc fuel) n ret =
    let rest = var_int_loop fuel (n / 128) (ret ++ encoded_byte n ∷ []) in
    if n == 0 then ok ret else rest

-- Four rounds are enough up to `max_msg_size`.
unfoldable pub var_int_bytes : ℤ → Result Bytes
var_int_bytes (negsuc n) = err encode_large_packet
var_int_bytes (pos n) =
    if ltb max_msg_size n
    then err encode_large_packet
    else if n == 0
    then ok (0 ∷ [])
    else var_int_loop 4 n []

-- What `getRemainLength` returns, and where it leaves the reader.
pub record RemainLength : Type 0 where
  pub value : ℕ
  pub byte_count : ℕ
  pub rest : Bytes

abbrev pub remain : ℕ → ℕ → Bytes → RemainLength
remain n k rest = record { value = n; byte_count = k; rest = rest }

-- `m` is the shift. The end of the input gives 0, 0; four bytes that all ask for more end the loop.
unfoldable pub remain_length_loop : ℕ → ℕ → Bytes → RemainLength
remain_length_loop m n [] = if ltb m 27 then remain 0 0 [] else remain n (m / 7 + 1) []
remain_length_loop m n (b ∷ bs) =
    let n' = bit_or n (bit_and b 127 * 2 ^ m) in
    let more = remain_length_loop (m + 7) n' bs in
    if ltb m 27
    then if bit_and b 128 == 0 then remain n' (m / 7 + 1) bs else more
    else remain n (m / 7 + 1) (b ∷ bs)

unfoldable pub get_remain_length : Bytes → RemainLength
get_remain_length r = remain_length_loop 0 0 r
