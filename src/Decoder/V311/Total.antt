-- ===== src/Decoder/V311/Total.antt =====
-- `decodeV311Packet` returns on every body of two bytes or more.
use libmqtt.Prelude.{
  ℕ, ◌≤◌, arith, Bool, true, false, if◌then◌else◌, length, Result, Returns, value, error,
  >>=-Returns,
}
use libmqtt.Util.Bytes.{Bytes}
use libmqtt.Util.Bytes.Total.{get_uint16-Returns, get_string_data-Returns}
use libmqtt.Packets.Types.{Packet, AckPacket}
use libmqtt.Decoder.Reads.Total.{
  index-Returns, tail_from-Returns, guard_le-Returns, guard_any-Returns, reads, topics_loop-Returns,
  names_loop-Returns, slice-Returns,
}
use libmqtt.Decoder.V311.{
  decode_conn, decode_conn_ack, packet_id_if, decode_publish, decode_ack, decode_subscribe,
  decode_sub_ack, decode_unsub, decode_unsub_ack, decode_v311,
}

decode_conn-Returns : (body : Bytes) → Returns (decode_conn body)
unfolding decode_conn
decode_conn-Returns body = >>=-Returns _ _ (get_string_data-Returns body) λ r _.
    guard_le-Returns 4 (length r.1) _ _ λ h.
      search
        (
          guard_any-Returns,
          reads,
          index-Returns r.1 0 (omega (arith, h)),
          index-Returns r.1 1 (omega (arith, h)),
          slice-Returns r.1 2 4 (omega arith) h,
          tail_from-Returns 4 r.1 h,
        )
        depth 24

pub packet_id_if-Returns : (b : Bool) (body : Bytes) → Returns (packet_id_if b body)
unfolding packet_id_if
packet_id_if-Returns false body = value _
packet_id_if-Returns true body = guard_le-Returns 2 (length body) _ _ λ h. search reads depth 8

decode_publish-Returns : (header : ℕ) (body : Bytes) → Returns (decode_publish header body)
unfolding decode_publish
decode_publish-Returns header body =
    search (>>=-Returns, get_string_data-Returns, packet_id_if-Returns, value) depth 8

-- A body that `Decode` passes on has two bytes at least.
module _ (body : Bytes) (h : 2 ≤ length body) where
  decode_conn_ack-Returns : Returns (decode_conn_ack body)
  unfolding decode_conn_ack
  decode_conn_ack-Returns =
      >>=-Returns _ _ (index-Returns body 0 (omega arith))
        λ _ _. >>=-Returns _ _ (index-Returns body 1 (omega arith)) λ _ _. value _

  decode_ack-Returns : (wrap : AckPacket → Packet) → Returns (decode_ack wrap body)
  unfolding decode_ack
  decode_ack-Returns wrap = search (>>=-Returns, get_uint16-Returns, value) depth 8

  decode_subscribe-Returns : Returns (decode_subscribe body)
  unfolding decode_subscribe
  decode_subscribe-Returns = >>=-Returns _ _ (get_uint16-Returns body h) λ _ _.
      >>=-Returns _ _ (tail_from-Returns 2 body h) λ rest _.
        >>=-Returns _ _ (topics_loop-Returns (length rest) rest (omega arith)) λ _ _. value _

  decode_sub_ack-Returns : Returns (decode_sub_ack body)
  unfolding decode_sub_ack
  decode_sub_ack-Returns =
      search (>>=-Returns, get_uint16-Returns, tail_from-Returns, value) depth 8

  decode_unsub-Returns : Returns (decode_unsub body)
  unfolding decode_unsub
  decode_unsub-Returns = >>=-Returns _ _ (get_uint16-Returns body h) λ _ _.
      >>=-Returns _ _ (tail_from-Returns 2 body h) λ rest _.
        >>=-Returns _ _ (names_loop-Returns (length rest) rest (omega arith)) λ _ _. value _

  decode_unsub_ack-Returns : Returns (decode_unsub_ack body)
  unfolding decode_unsub_ack
  decode_unsub_ack-Returns = search (>>=-Returns, get_uint16-Returns, value) depth 8

  if-Returns :
      (b : Bool) {x y : Result Packet} → Returns x → Returns y → Returns (if b then x else y)
  if-Returns true p q = p
  if-Returns false p q = q

  pub decode_v311-Returns : (header : ℕ) → Returns (decode_v311 header body)
  unfolding decode_v311
  decode_v311-Returns header =
      search
        (
          if-Returns, decode_conn-Returns, decode_conn_ack-Returns, decode_publish-Returns,
          decode_ack-Returns, decode_subscribe-Returns, decode_sub_ack-Returns,
          decode_unsub-Returns, decode_unsub_ack-Returns, error,
        )
        depth 16
