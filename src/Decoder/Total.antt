-- ===== src/Decoder/Total.antt =====
-- `Decode` on arbitrary input: it returns a packet or an error, and never panics or hangs.
use libmqtt.Prelude.{
  ℕ, ◌≤◌, ◌≡◌, arith, [], ◌∷◌, ltb, ◌==◌, length, length-take, ok, Returns, value, error,
  Returns-of, >>=-Returns, Bool-cases, inl, inr,
}
use libmqtt.Util.Bytes.{Bytes}
use libmqtt.Util.VarInt.{RemainLength, get_remain_length}
use libmqtt.Packets.Types.{v311, v5}
use libmqtt.Decoder.V311.Total.{decode_v311-Returns}
use libmqtt.Decoder.V5.Total.{decode_v5-Returns}
use libmqtt.Decoder.{read_full, decode_empty, decode_body, sized, decode}

read_full-Returns : (n : ℕ) (bs : Bytes) → Returns (read_full n bs)
unfolding read_full
read_full-Returns n [] = Returns-of _ (λ e. ground arith) (λ e. ground arith)
read_full-Returns n (b ∷ bs) = Returns-of _ (λ e. ground arith) (λ e. ground arith)

length-read_full :
    (n : ℕ) (bs body rest : Bytes) → read_full n bs ≡ ok (body, rest) → length body ≡ n
unfolding read_full
length-read_full n [] body rest h = ground arith
length-read_full n (b ∷ bs) body rest h = ground (arith, length-take n (b ∷ bs))

decode_empty-Returns :
    (version header : ℕ) (rest : Bytes) → Returns (decode_empty version header rest)
unfolding decode_empty
decode_empty-Returns version header rest = Returns-of _ (λ e. ground arith) (λ e. ground arith)

decode_body-Returns :
    (version header : ℕ) (body : Bytes)
    → 2 ≤ length body
    → Returns (decode_body version header body)
unfolding decode_body
decode_body-Returns version header body h = elim (Bool-cases (version == v311)) [
  | inl old ↦ rw old (decode_v311-Returns body h header)
  | inr other ↦ elim (Bool-cases (version == v5)) [
    | inl new ↦ rw (other, new) (decode_v5-Returns body h header)
    | inr unknown ↦ rw (other, unknown) (error _)
  ]
]

sized-Returns : (version header : ℕ) (r : RemainLength) → Returns (sized version header r)
sized-Returns version header r = elim (Bool-cases (r.value == 0)) [
  | inl empty ↦ rw empty (decode_empty-Returns version header r.rest)
  | inr filled ↦ elim (Bool-cases (ltb r.value 2)) [
    | inl short ↦ rw (filled, short) (error _)
    | inr long ↦
        rw (filled, long)
          (>>=-Returns _ _ (read_full-Returns r.value r.rest) λ b e.
            >>=-Returns _ _
              (decode_body-Returns version header b.0
                (ground (arith, length-read_full r.value r.rest b.0 b.1 e)))
              λ p _. value _)
  ]
]

-- Whatever the version and the bytes are, the decoder returns a packet or an error: no read is out of
-- bounds, and every loop ends.
pub decode-Returns : (version : ℕ) (input : Bytes) → Returns (decode version input)
unfolding decode
decode-Returns version [] = error _
decode-Returns version (header ∷ r) = sized-Returns version header (get_remain_length r)
