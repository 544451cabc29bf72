-- ===== src/Util/Bytes.antt =====
-- util.go: big-endian integers and length-prefixed texts. A byte slice and a Go string are both the
-- list of their bytes.
pub mod RoundTrip
pub mod Total
use libmqtt.Prelude.{
  ℕ, suc, ◌+◌, ◌*◌, ◌/◌, ◌%◌, ◌^◌, ◌≤◌, ◌<◌, ◌≡◌, refl, arith, Bool, true, false, List, [], ◌∷◌,
  ◌++◌, ltb, if◌then◌else◌, length, take, drop, length-append, take-append, drop-append, Result, ok,
  err, panic, ◌>>=◌, ◌>>◌, guard, decode_bad_packet, leb,
}

abbrev pub Bytes : Type 0
Bytes = List ℕ

abbrev pub IsByte : ℕ → Type 0
IsByte b = b < 256

abbrev pub IsU16 : ℕ → Type 0
IsU16 n = n < 65536

abbrev pub IsU32 : ℕ → Type 0
IsU32 n = n < 2 ^ 32

unfoldable pub bool_to_byte : Bool → ℕ
bool_to_byte true = 1
bool_to_byte false = 0

-- `byte(v >> 8), byte(v)`.
unfoldable pub put_uint16 : ℕ → Bytes
put_uint16 v = v / 256 % 256 ∷ v % 256 ∷ []

unfoldable pub put_uint32 : ℕ → Bytes
put_uint32 v = v / 2 ^ 24 % 256 ∷ v / 2 ^ 16 % 256 ∷ v / 256 % 256 ∷ v % 256 ∷ []

-- A slice that is too short is a run-time panic.
unfoldable pub get_uint16 : Bytes → Result ℕ
get_uint16 [] = panic
get_uint16 (a ∷ []) = panic
get_uint16 (a ∷ b ∷ d) = ok (a * 256 + b)

unfoldable pub get_uint32 : Bytes → Result ℕ
get_uint32 [] = panic
get_uint32 (a ∷ []) = panic
get_uint32 (a ∷ b ∷ []) = panic
get_uint32 (a ∷ b ∷ c ∷ []) = panic
get_uint32 (a ∷ b ∷ c ∷ e ∷ d) = ok (((a * 256 + b) * 256 + c) * 256 + e)

unfoldable pub encode_bytes_with_len : Bytes → Bytes
unfolding put_uint16
encode_bytes_with_len bytes = put_uint16 (length bytes) ++ bytes

unfoldable pub encode_string_with_len : Bytes → Bytes
encode_string_with_len str = encode_bytes_with_len str

-- The payload of the length prefix, and what follows it.
unfoldable pub get_binary_data : Bytes → Result (Bytes × Bytes)
unfolding get_uint16
get_binary_data bytes = do
  guard (leb 2 (length bytes)) decode_bad_packet
  n ← get_uint16 bytes
  guard (leb (n + 2) (length bytes)) decode_bad_packet
  ok (take n (drop 2 bytes), drop (n + 2) bytes)

unfoldable pub get_string_data : Bytes → Result (Bytes × Bytes)
get_string_data bytes = get_binary_data bytes
