-- ===== src/Decoder/Frame.antt =====
-- `Decode` on a frame: the body goes to the packet decoder, and what follows the frame is left.
use libmqtt.Prelude.{
  ℕ, ◌≤◌, ◌<◌, ◌≡◌, arith, [], ◌∷◌, ◌++◌, append_assoc, length, length-append, take-append,
  drop-append, ok, ◌>>=◌,
}
use libmqtt.Util.Bytes.{Bytes}
use libmqtt.Util.VarInt.{max_msg_size, remain}
use libmqtt.Util.VarInt.RoundTrip.{groups, get_remain_length-groups}
use libmqtt.Packets.Frame.{frame}
use libmqtt.Decoder.{read_full, decode_empty, decode_body, sized, decode}

read_full-append :
    (body rest : Bytes) → 0 < length body → read_full (length body) (body ++ rest) ≡ ok (body, rest)
unfolding read_full
read_full-append [] rest h = absurd (omega arith)
read_full-append (b ∷ body) rest h =
    ground (arith, length-append body rest, take-append body rest, drop-append body rest)

frame-append :
    (first : ℕ) (body rest : Bytes)
    → frame first body ++ rest ≡ first ∷ (groups 3 (length body) ++ (body ++ rest))
unfolding frame
frame-append first body rest = simp append_assoc

sized-body :
    (version first : ℕ) (body rest : Bytes) (n : ℕ)
    → 2 ≤ length body
    → sized version first (remain (length body) n (body ++ rest))
      ≡ (decode_body version first body >>= λ p. ok (p, rest))
sized-body version first body rest n h = ground (arith, read_full-append body rest)

pub decode-frame :
    (version first : ℕ) (body rest : Bytes)
    → 2 ≤ length body
    → length body ≤ max_msg_size
    → decode version (frame first body ++ rest)
      ≡ (decode_body version first body >>= λ p. ok (p, rest))
unfolding decode
decode-frame version first body rest h k =
    rw (frame-append, get_remain_length-groups (length body) (body ++ rest) k)
      (sized-body version first body rest (length (groups 3 (length body))) h)

-- A frame of no body.
pub decode-frame_empty :
    (version first : ℕ) (rest : Bytes)
    → decode version (frame first [] ++ rest) ≡ decode_empty version first rest
unfolding decode frame groups
decode-frame_empty version first rest = rw (get_remain_length-groups 0 rest (omega arith))
