-- ===== src/Util/Bytes/RoundTrip.antt =====
-- Reading back what the byte helpers wrote, and the bounds of what they read.
use libmqtt.Prelude.{
  ℕ, ◌+◌, ◌≡◌, ap, arith, ◌++◌, length, length-append, take-append, drop-append, ok,
}
use libmqtt.Util.Bytes.{
  Bytes, IsU16, IsU32, put_uint16, put_uint32, get_uint16, get_uint32, encode_bytes_with_len,
  get_binary_data, encode_string_with_len, get_string_data,
}

pub get_uint16-put_uint16 :
    (v : ℕ) (rest : Bytes) → IsU16 v → get_uint16 (put_uint16 v ++ rest) ≡ ok v
unfolding get_uint16 put_uint16
get_uint16-put_uint16 v rest h = ground arith

pub get_uint32-put_uint32 :
    (v : ℕ) (rest : Bytes) → IsU32 v → get_uint32 (put_uint32 v ++ rest) ≡ ok v
unfolding get_uint32 put_uint32
get_uint32-put_uint32 v rest h = ap ok (omega arith)

-- A byte string of less than 64 KiB is read back from behind its length, with what follows it.
pub get_binary_data-encode_bytes_with_len :
    (d rest : Bytes)
    → IsU16 (length d)
    → get_binary_data (encode_bytes_with_len d ++ rest) ≡ ok (d, rest)
unfolding get_binary_data encode_bytes_with_len
get_binary_data-encode_bytes_with_len d rest h =
    ground (arith, length-append d rest, take-append d rest, drop-append d rest)

pub get_string_data-encode_string_with_len :
    (d rest : Bytes)
    → IsU16 (length d)
    → get_string_data (encode_string_with_len d ++ rest) ≡ ok (d, rest)
unfolding get_string_data encode_string_with_len
get_string_data-encode_string_with_len d rest h = get_binary_data-encode_bytes_with_len d rest h

pub length-encode_string_with_len : (d : Bytes) → length (encode_string_with_len d) ≡ length d + 2
unfolding encode_string_with_len encode_bytes_with_len
length-encode_string_with_len d = omega arith
