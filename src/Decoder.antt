-- ===== src/Decoder.antt =====
-- decoder.go: one packet from a reader, in either protocol version.
pub mod Reads
pub mod V311
pub mod V5
pub mod Total
pub mod Frame
use libmqtt.Prelude.{
  ℕ, ◌/◌, List, [], ◌∷◌, leb, ltb, ◌==◌, if◌then◌else◌, length, take, drop, Option, none, Result,
  ok, err, panic, stuck, ◌>>=◌, decode_bad_packet, unsupported_version, eof, unexpected_eof,
}
use libmqtt.Util.Bytes.{Bytes}
use libmqtt.Util.VarInt.{RemainLength, get_remain_length}
use libmqtt.Packets.Types.{Packet, ping_req, ping_resp, disconn, v311, v5}
use V311.{decode_v311}
use V5.{decode_v5}

-- `io.ReadFull` into a slice of `n` bytes.
unfoldable pub read_full : ℕ → Bytes → Result (Bytes × Bytes)
read_full n [] = if leb n 0 then ok ([], []) else err eof
read_full n (b ∷ bs) =
    if leb n (length (b ∷ bs)) then ok (take n (b ∷ bs), drop n (b ∷ bs)) else err unexpected_eof

-- A packet of no body, by its type. The two pings are shared objects, whose version is 0 until a
-- connection that sends one sets it; here it is 0.
unfoldable pub decode_empty : ℕ → ℕ → Bytes → Result (Packet × Bytes)
decode_empty version header rest =
    if header / 16 == 12
    then ok (ping_req 0, rest)
    else if header / 16 == 13
    then ok (ping_resp 0, rest)
    else if header / 16 == 14
    then (if version == v311
        then ok (disconn (record { proto_version = 0; code = 0; props = none }), rest)
        else err decode_bad_packet)
    else err decode_bad_packet

unfoldable pub decode_body : ℕ → ℕ → Bytes → Result Packet
decode_body version header body =
    if version == v311
    then decode_v311 header body
    else if version == v5
    then decode_v5 header body
    else err unsupported_version

abbrev pub sized : ℕ → ℕ → RemainLength → Result (Packet × Bytes)
sized version header r =
    if r.value == 0
    then decode_empty version header r.rest
    else if ltb r.value 2
    then err decode_bad_packet
    else (do
      (body, rest) ← read_full r.value r.rest
      p ← decode_body version header body
      ok (p, rest))

-- The packet, and what is left to read. The length's byte count is not looked at.
unfoldable pub decode : ℕ → Bytes → Result (Packet × Bytes)
decode version [] = err eof
decode version (header ∷ r) = sized version header (get_remain_length r)
