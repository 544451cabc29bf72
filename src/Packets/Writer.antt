-- ===== src/Packets/Writer.antt =====
-- libmqtt.go, `BasePacket.write` and `writeV5`, over a writer that may refuse a write at any point.
use libmqtt.Prelude.{
  ℕ, ◌+◌, [], ◌∷◌, ◌++◌, take, length, Option, none, some, Result, Error, ok, err, panic, stuck,
  pos,
}
use libmqtt.Util.Bytes.{Bytes}
use libmqtt.Util.VarInt.{var_int_bytes}

-- The `io.Writer`: what went out so far, and whether the next write fails, after how many bytes.
-- A write of no bytes is not asked for.
pub record Writer : Type 0 where
  pub written : Bytes
  pub refuse : Bytes → Bytes → Option (ℕ × Error)

-- A `bytes.Buffer`: its writes do not fail.
abbrev pub buffer : Bytes → Writer
buffer bs = record { written = bs; refuse = λ _ _. none }

abbrev pub W : Type 0 → Type 0
W A = Writer → Writer × Result A

abbrev pub and_then : {A B : Type 0} → Writer × Result A → (A → W B) → Writer × Result B
and_then (w, ok a) f = f a w
and_then (w, err e) f = (w, err e)
and_then (w, panic) f = (w, panic)
and_then (w, stuck) f = (w, stuck)

infixl 5 ◌>>=◌ ◌>>◌
abbrev pub ◌>>=◌ : {A B : Type 0} → W A → (A → W B) → W B
◌>>=◌ m f w = and_then (m w) f

abbrev pub ◌>>◌ : {B : Type 0} → W (Unit {0}) → W B → W B
m >> k = m >>= λ _. k

abbrev pub lift : {A : Type 0} → Result A → W A
lift r w = (w, r)

unfoldable pub write_bytes : Bytes → W (Unit {0})
write_bytes [] w = (w, ok tt)
write_bytes (b ∷ bs) w = elim (w.refuse w.written (b ∷ bs)) [
  | none ↦ (record w { written = w.written ++ (b ∷ bs) }, ok tt)
  | some (n, e) ↦ (record w { written = w.written ++ take n (b ∷ bs) }, err e)
]

-- The first byte goes out before the length is checked.
unfoldable pub base_write : ℕ → Bytes → Bytes → W (Unit {0})
base_write first var_header payload = do
  write_bytes (first ∷ [])
  len ← lift (var_int_bytes (pos (length var_header + length payload)))
  write_bytes len
  write_bytes var_header
  write_bytes payload

unfoldable pub base_write_v5 : ℕ → Bytes → Bytes → Bytes → W (Unit {0})
base_write_v5 first var_header props payload = do
  len ← lift (var_int_bytes (pos (length props)))
  base_write first (var_header ++ (len ++ props)) payload
