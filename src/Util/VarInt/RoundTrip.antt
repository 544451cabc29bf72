-- ===== src/Util/VarInt/RoundTrip.antt =====
-- `varIntBytes` against an arithmetic description of the format, and against `getRemainLength`.
use libmqtt.Prelude.{
  ℕ, zero, suc, ◌+◌, ◌*◌, ◌/◌, ◌%◌, ◌^◌, ◌≤◌, ◌<◌, ◌≡◌, refl, ap, ◌∙◌, arith, [], ◌∷◌, ◌++◌,
  append_assoc, ltb, if◌then◌else◌, length, ok, pos, negsuc, err, encode_large_packet,
}
use libmqtt.Prelude.Bits.{low_seven, top_bit, set_top_bit, bit_or-disjoint}
use libmqtt.Util.Bytes.{Bytes}
use libmqtt.Util.VarInt.{
  max_msg_size, encoded_byte, var_int_loop, var_int_bytes, remain, remain_length_loop,
  get_remain_length,
}
use native.Mathlib.Nat.{div-add-mod}
use native.Mathlib.Numerals.{towards_suc}

-- The groups of seven bits of `n`, lowest first, for `n` below 128 ^ (k + 1).
unfoldable pub groups : ℕ → ℕ → Bytes
groups zero n = n ∷ []
groups (suc k) n =
    let rest = groups k (n / 128) in if ltb n 128 then n ∷ [] else (n % 128 + 128) ∷ rest

encoded_byte_last : (n : ℕ) → n < 128 → encoded_byte n ≡ n
unfolding encoded_byte
encoded_byte_last n h = ground arith

encoded_byte_more : (n : ℕ) → 128 ≤ n → encoded_byte n ≡ n % 128 + 128
unfolding encoded_byte
encoded_byte_more n h = ground (arith, set_top_bit (n % 128))

loop_zero : (fuel : ℕ) (ret : Bytes) → var_int_loop fuel 0 ret ≡ ok ret
unfolding var_int_loop
loop_zero zero ret = refl
loop_zero (suc fuel) ret = refl

loop_step :
    (fuel n : ℕ) (ret : Bytes)
    → 0 < n
    → var_int_loop (suc fuel) n ret ≡ var_int_loop fuel (n / 128) (ret ++ encoded_byte n ∷ [])
unfolding var_int_loop
loop_step fuel n ret h = ground arith

quotient_zero : (n : ℕ) → n < 128 → n / 128 ≡ 0
quotient_zero n h = omega arith

loop_last :
    (fuel n : ℕ) (ret : Bytes)
    → 0 < n
    → n < 128
    → var_int_loop (suc fuel) n ret ≡ ok (ret ++ n ∷ [])
loop_last fuel n ret p h =
    loop_step fuel n ret p ∙ rw (quotient_zero n h, encoded_byte_last n h) (loop_zero fuel _)

var_int_loop-groups :
    (k n : ℕ) (ret : Bytes)
    → 0 < n
    → n < 128 ^ suc k
    → var_int_loop (suc k) n ret ≡ ok (ret ++ groups k n)
unfolding groups
var_int_loop-groups zero n ret p h = loop_last 0 n ret p (omega arith)
var_int_loop-groups (suc k) n ret p h = ground (
  arith,
  loop_last (suc k) n ret,
  loop_step (suc k) n ret,
  encoded_byte_more n,
  var_int_loop-groups k (n / 128) (ret ++ (n % 128 + 128) ∷ []),
  append_assoc ret ((n % 128 + 128) ∷ []) (groups k (n / 128)),
)

-- Up to the largest message the encoding is the groups of the number.
pub var_int_bytes-groups : (n : ℕ) → n ≤ max_msg_size → var_int_bytes (pos n) ≡ ok (groups 3 n)
unfolding var_int_bytes
var_int_bytes-groups zero h = unfold groups in refl
var_int_bytes-groups (suc n) h = ground (arith, var_int_loop-groups 3 (suc n) [])

pub length-groups : (k n : ℕ) → (1 ≤ length (groups k n)) × (length (groups k n) ≤ k + 1)
unfolding groups
length-groups zero n = omega arith
length-groups (suc k) n = ground (arith, length-groups k (n / 128))

-- One round of the reader on the last byte, and on a byte that asks for more.
read_last :
    (w n m : ℕ) (rest : Bytes)
    → w < 128
    → n < 2 ^ m
    → m < 27
    → remain_length_loop m n (w ∷ rest) ≡ remain (n + w * 2 ^ m) (m / 7 + 1) rest
unfolding remain_length_loop
read_last w n m rest hw hn hm = ground (arith, low_seven w, top_bit w, bit_or-disjoint m n w)

read_more :
    (g n m : ℕ) (rest : Bytes)
    → g < 128
    → n < 2 ^ m
    → m < 27
    → remain_length_loop m n ((g + 128) ∷ rest) ≡ remain_length_loop (m + 7) (n + g * 2 ^ m) rest
unfolding remain_length_loop
read_more g n m rest hg hn hm =
    ground (arith, low_seven (g + 128), top_bit (g + 128), bit_or-disjoint m n g)

shift_seven : (m : ℕ) → 2 ^ (m + 7) ≡ 128 * 2 ^ m
shift_seven m = simp towards_suc (omega arith)

split_group : (w m : ℕ) → w * 2 ^ m ≡ w % 128 * 2 ^ m + w / 128 * 2 ^ (m + 7)
split_group w m = omega (
  arith,
  ap (λ (t : ℕ). t * 2 ^ m) (div-add-mod w 128),
  ap (λ (t : ℕ). w / 128 * t) (shift_seven m),
)

group_fits : (n g m : ℕ) → n < 2 ^ m → g < 128 → n + g * 2 ^ m < 2 ^ (m + 7)
group_fits n g m hn hg = grind (arith, shift_seven m)

remain_length_loop-groups :
    (k w n m j : ℕ) (rest : Bytes)
    → m ≡ 7 * j
    → w < 128 ^ suc k
    → n < 2 ^ m
    → j + k ≤ 3
    → remain_length_loop m n (groups k w ++ rest)
      ≡ remain (n + w * 2 ^ m) (j + length (groups k w)) rest
unfolding groups
remain_length_loop-groups zero w n m j rest e hw hn hj = ground (arith, read_last w n m rest)
remain_length_loop-groups (suc k) w n m j rest e hw hn hj = ground (
  arith,
  read_last w n m rest,
  split_group w m,
  read_more (w % 128) n m (groups k (w / 128) ++ rest),
  group_fits n (w % 128) m,
  remain_length_loop-groups k (w / 128) (n + w % 128 * 2 ^ m) (m + 7) (j + 1) rest,
)

pub get_remain_length-groups :
    (n : ℕ) (rest : Bytes)
    → n ≤ max_msg_size
    → get_remain_length (groups 3 n ++ rest) ≡ remain n (length (groups 3 n)) rest
unfolding get_remain_length
get_remain_length-groups n rest h = ground (arith, remain_length_loop-groups 3 n 0 0 0 rest)

-- Every length up to the largest message is written in one to four bytes, and reading them in front
-- of any other input gives the length, their number, and that input.
pub get_remain_length-var_int_bytes :
    (n : ℕ) (rest : Bytes)
    → n ≤ max_msg_size
    → (bs : Bytes) × (var_int_bytes (pos n) ≡ ok bs)
      × (get_remain_length (bs ++ rest) ≡ remain n (length bs) rest)
      × (1 ≤ length bs)
      × (length bs ≤ 4)
get_remain_length-var_int_bytes n rest h =
    let (lo, hi) = length-groups 3 n in
    (groups 3 n, var_int_bytes-groups n h, get_remain_length-groups n rest h, lo, hi)

-- A negative number and one above the largest message are refused.
pub var_int_bytes-too_large :
    (n : ℕ)
    → (var_int_bytes (negsuc n) ≡ err encode_large_packet)
      × (max_msg_size < n → var_int_bytes (pos n) ≡ err encode_large_packet)
unfolding var_int_bytes
var_int_bytes-too_large n = (refl, λ h. ground arith)
