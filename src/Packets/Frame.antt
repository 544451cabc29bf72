-- ===== src/Packets/Frame.antt =====
-- What `BasePacket.write` and `writeV5` leave in a buffer: a frame, or the first byte alone.
pub mod V311
pub mod Wire
pub mod V5
use libmqtt.Prelude.{
  ℕ, suc, ◌+◌, ◌≤◌, ◌<◌, ◌≡◌, refl, sym, ap, ◌∙◌, arith, List, [], ◌∷◌, ◌++◌, append-nil,
  append_assoc, length, length-append, Result, ok, err, encode_large_packet, pos,
}
use libmqtt.Util.Bytes.{Bytes}
use libmqtt.Util.VarInt.{max_msg_size, var_int_bytes}
use libmqtt.Util.VarInt.RoundTrip.{groups, var_int_bytes-groups, var_int_bytes-too_large}
use libmqtt.Packets.Writer.{
  Writer, buffer, ◌>>=◌, ◌>>◌, lift, write_bytes, base_write, base_write_v5,
}

-- A packet on the wire: the first byte, the length of the body, the body.
unfoldable pub frame : ℕ → Bytes → Bytes
frame first body = first ∷ (groups 3 (length body) ++ body)

pub write_bytes-buffer :
    (chunk bs : Bytes) → write_bytes chunk (buffer bs) ≡ (buffer (bs ++ chunk), ok tt)
unfolding write_bytes
write_bytes-buffer [] bs = rw append-nil
write_bytes-buffer (b ∷ chunk) bs = refl

-- A body of a legal length is written as one frame.
pub base_write-frame :
    (first : ℕ) (var_header payload bs : Bytes)
    → length (var_header ++ payload) ≤ max_msg_size
    → base_write first var_header payload (buffer bs)
      ≡ (buffer (bs ++ frame first (var_header ++ payload)), ok tt)
unfolding base_write frame
base_write-frame first vh payload bs h =
    rw
      (
        write_bytes-buffer (first ∷ []) bs,
        ← length-append vh payload,
        var_int_bytes-groups (length (vh ++ payload)) h,
        write_bytes-buffer,
        write_bytes-buffer,
        write_bytes-buffer,
      )
      (simp append_assoc)

-- A body above the largest length is refused with the error for it, when the first byte has already
-- been written to the buffer.
pub base_write-too_large :
    (first : ℕ) (var_header payload bs : Bytes)
    → max_msg_size < length (var_header ++ payload)
    → base_write first var_header payload (buffer bs)
      ≡ (buffer (bs ++ first ∷ []), err encode_large_packet)
unfolding base_write
base_write-too_large first vh payload bs h = rw (
  write_bytes-buffer (first ∷ []) bs,
  ← length-append vh payload,
  (var_int_bytes-too_large (length (vh ++ payload))).1 h,
)

-- Version 5 writes one frame with the property block, its length first, between the header and the
-- payload, if the block and the whole body have a legal length.
pub base_write_v5-frame :
    (first : ℕ) (var_header props payload bs : Bytes)
    → length props ≤ max_msg_size
    → length ((var_header ++ (groups 3 (length props) ++ props)) ++ payload) ≤ max_msg_size
    → base_write_v5 first var_header props payload (buffer bs) ≡ (
      buffer (bs ++ frame first ((var_header ++ (groups 3 (length props) ++ props)) ++ payload)),
      ok tt,
    )
unfolding base_write_v5
base_write_v5-frame first vh props payload bs h k =
    rw (var_int_bytes-groups (length props) h) (base_write-frame first _ payload bs k)
