-- ===== src/Decoder/V5/Total.antt =====
-- `decodeV5Packet` returns on every body of two bytes or more.
use libmqtt.Prelude.{
  ℕ, ◌≤◌, arith, ◌≡◌, Bool, true, false, if◌then◌else◌, length, Result, Returns, error, ◌>>=◌,
  >>=-Returns,
}
use libmqtt.Util.Bytes.{Bytes}
use libmqtt.Util.Bytes.Total.{get_uint16-Returns, get_string_data-Returns}
use libmqtt.Util.RawProps.{RawProps, get_raw_props}
use libmqtt.Util.RawProps.Total.{IsShaped, get_raw_props-Returns, get_raw_props-IsShaped}
use libmqtt.Util.RawProps.Chunks.{IsChunked, get_raw_props-IsChunked}
use libmqtt.Props.Pub.{ReasonProps, set_reason_props}
use libmqtt.Props.Total.{
  set_conn_props-Returns, set_conn_ack_props-Returns, set_disconn_props-Returns,
  set_auth_props-Returns, set_publish_props-Returns, set_reason_props-Returns,
  set_subscribe_props-Returns, set_unsub_props-Returns,
}
use libmqtt.Packets.Types.{Packet, AckPacket}
use libmqtt.Decoder.Reads.{topics_loop, names_loop}
use libmqtt.Decoder.Reads.Total.{
  index-Returns, tail_from-Returns, guard_le-Returns, guard_any-Returns, reads, topics_loop-Returns,
  names_loop-Returns, slice-Returns,
}
use libmqtt.Decoder.V311.Total.{packet_id_if-Returns}
use libmqtt.Decoder.V5.{
  decode_conn, decode_conn_ack, decode_publish, decode_ack, decode_subscribe, decode_sub_ack,
  decode_unsub, decode_unsub_ack, decode_disconn, decode_auth, decode_v5,
}

-- What the code knows of a property block that was read.
block-Returns {ℓ} :
    {B : Type ℓ} (d : Bytes) (k : RawProps × Bytes → Result B)
    → ((r : RawProps × Bytes) → IsShaped r.0 → IsChunked r.0 → Returns (k r))
    → Returns (get_raw_props d >>= k)
block-Returns d k f =
    >>=-Returns (get_raw_props d) k (get_raw_props-Returns d)
      λ r e. f r (get_raw_props-IsShaped d r.0 r.1 e) (get_raw_props-IsChunked d r.0 r.1 e)

topics-Returns : (bs : Bytes) → Returns (topics_loop (length bs) bs)
topics-Returns bs = topics_loop-Returns (length bs) bs (omega arith)

names-Returns : (bs : Bytes) → Returns (names_loop (length bs) bs)
names-Returns bs = names_loop-Returns (length bs) bs (omega arith)

ruleset blocks = (
  block-Returns, reads, set_conn_props-Returns, set_conn_ack_props-Returns,
  set_disconn_props-Returns, set_auth_props-Returns, set_publish_props-Returns,
  set_reason_props-Returns, set_subscribe_props-Returns, set_unsub_props-Returns,
  packet_id_if-Returns, topics-Returns, names-Returns, guard_any-Returns,
)

decode_conn-Returns : (body : Bytes) → Returns (decode_conn body)
unfolding decode_conn
decode_conn-Returns body = >>=-Returns _ _ (get_string_data-Returns body) λ r _.
    guard_le-Returns 5 (length r.1) _ _ λ h.
      search
        (
          blocks,
          index-Returns r.1 0 (omega (arith, h)),
          index-Returns r.1 1 (omega (arith, h)),
          slice-Returns r.1 2 4 (omega arith) (omega (arith, h)),
          tail_from-Returns 4 r.1 (omega (arith, h)),
        )
        depth 30

decode_publish-Returns : (header : ℕ) (body : Bytes) → Returns (decode_publish header body)
unfolding decode_publish
decode_publish-Returns header body = search blocks depth 12

decode_ack-Returns :
    (wrap : AckPacket → Packet) (set_props : RawProps → ReasonProps → Result ReasonProps)
    (body : Bytes)
    → set_props ≡ set_reason_props
    → Returns (decode_ack wrap set_props body)
unfolding decode_ack
decode_ack-Returns wrap set_props body same = guard_le-Returns 3 (length body) _ _ λ h.
    rw same search
      (
        blocks,
        get_uint16-Returns body (omega (arith, h)),
        index-Returns body 2 h,
        tail_from-Returns 3 body h,
      )
      depth 12

-- A body that `Decode` passes on has two bytes at least.
module _ (body : Bytes) (h : 2 ≤ length body) where
  one : 1 ≤ length body
  one = omega arith

  decode_conn_ack-Returns : Returns (decode_conn_ack body)
  unfolding decode_conn_ack
  decode_conn_ack-Returns =
      search (blocks, index-Returns body 0 one, index-Returns body 1 h, tail_from-Returns 2 body h)
        depth 12

  decode_subscribe-Returns : Returns (decode_subscribe body)
  unfolding decode_subscribe
  decode_subscribe-Returns =
      search (blocks, get_uint16-Returns body h, tail_from-Returns 2 body h) depth 12

  decode_sub_ack-Returns : Returns (decode_sub_ack body)
  unfolding decode_sub_ack
  decode_sub_ack-Returns =
      search (blocks, get_uint16-Returns body h, tail_from-Returns 2 body h) depth 12

  decode_unsub-Returns : Returns (decode_unsub body)
  unfolding decode_unsub
  decode_unsub-Returns =
      search (blocks, get_uint16-Returns body h, tail_from-Returns 2 body h) depth 12

  decode_unsub_ack-Returns : Returns (decode_unsub_ack body)
  unfolding decode_unsub_ack
  decode_unsub_ack-Returns =
      search (blocks, get_uint16-Returns body h, tail_from-Returns 2 body h) depth 12

  decode_disconn-Returns : Returns (decode_disconn body)
  unfolding decode_disconn
  decode_disconn-Returns =
      search (blocks, index-Returns body 0 one, tail_from-Returns 1 body one) depth 12

  decode_auth-Returns : Returns (decode_auth body)
  unfolding decode_auth
  decode_auth-Returns =
      search (blocks, index-Returns body 0 one, tail_from-Returns 1 body one) depth 12

  if-Returns :
      (b : Bool) {x y : Result Packet} → Returns x → Returns y → Returns (if b then x else y)
  if-Returns true p q = p
  if-Returns false p q = q

  pub decode_v5-Returns : (header : ℕ) → Returns (decode_v5 header body)
  unfolding decode_v5
  decode_v5-Returns header =
      search
        (
          if-Returns, decode_conn-Returns, decode_conn_ack-Returns, decode_publish-Returns,
          decode_ack-Returns, decode_subscribe-Returns, decode_sub_ack-Returns,
          decode_unsub-Returns, decode_unsub_ack-Returns, decode_disconn-Returns,
          decode_auth-Returns, error,
        )
        depth 20
