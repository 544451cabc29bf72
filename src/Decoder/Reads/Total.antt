-- ===== src/Decoder/Reads/Total.antt =====
-- The reads of the decoder return on every input that is long enough, and its loops on every input.
use libmqtt.Prelude.{
  ℕ, zero, suc, ◌+◌, ◌-◌, ◌/◌, ◌≤◌, ◌<◌, ◌≡◌, refl, arith, Bool, true, false, List, [], ◌∷◌, ltb,
  leb, ◌==◌, if◌then◌else◌, length, drop, length-drop, Option, none, some, Result, ok, err, Returns,
  value, error, Returns-of, >>=-Returns, ◌>>=◌, guard, Error, Bool-cases, inl, inr,
}
use libmqtt.Util.Bytes.{Bytes, get_uint16}
use libmqtt.Util.Bytes.Total.{
  get_uint16-Returns, get_string_data-Returns, get_binary_data-Returns, get_string_data-shorter,
}
use libmqtt.Util.RawProps.{slice}
use libmqtt.Util.RawProps.Total.{length-slice}
use libmqtt.Decoder.Reads.{index, tail_from, text_if, will_if, topics_loop, names_loop}

pub index-Returns : (bs : Bytes) (i : ℕ) → i < length bs → Returns (index bs i)
unfolding index
index-Returns [] i h = absurd (omega arith)
index-Returns (b ∷ bs) zero h = value b
index-Returns (b ∷ bs) (suc i) h = index-Returns bs i (omega arith)

pub tail_from-Returns : (n : ℕ) (bs : Bytes) → n ≤ length bs → Returns (tail_from n bs)
unfolding tail_from
tail_from-Returns n bs h = Returns-of _ (λ e. ground arith) (λ e. ground arith)

-- `if len(body) < m { return err }`: the rest of the code knows the length.
pub guard_le-Returns {ℓ} :
    {B : Type ℓ} (m n : ℕ) (e : Error) (k : Unit {0} → Result B)
    → (m ≤ n → Returns (k tt))
    → Returns (guard (leb m n) e >>= k)
guard_le-Returns m n e k f = elim (Bool-cases (leb m n)) [
  | inl fits ↦ rw fits (f (ground arith))
  | inr short ↦ rw short (error e)
]

pub text_if-Returns : (b : Bool) (bs : Bytes) → Returns (text_if b bs)
unfolding text_if
text_if-Returns true bs = get_string_data-Returns bs
text_if-Returns false bs = value _

pub will_if-Returns : (b : Bool) (bs : Bytes) → Returns (will_if b bs)
unfolding will_if
will_if-Returns true bs =
    search (>>=-Returns, get_string_data-Returns, get_binary_data-Returns, value) depth 8
will_if-Returns false bs = value _

-- The rest of a list that the loops go on with is shorter.
pub topics_loop-Returns : (fuel : ℕ) (bs : Bytes) → length bs ≤ fuel → Returns (topics_loop fuel bs)
unfolding topics_loop
topics_loop-Returns fuel [] h = value _
topics_loop-Returns zero (b ∷ bs) h = absurd (omega arith)
topics_loop-Returns (suc fuel) (b ∷ bs) h =
    >>=-Returns _ _ (get_string_data-Returns (b ∷ bs)) λ r e.
      guard_le-Returns 1 (length r.1) _ _ λ g. >>=-Returns _ _ (index-Returns r.1 0 g) λ qos _.
        >>=-Returns _ _
          (topics_loop-Returns fuel (drop 1 r.1)
            (omega (arith, get_string_data-shorter (b ∷ bs) r.0 r.1 e, length-drop 1 r.1)))
          λ ts _. value _

pub names_loop-Returns : (fuel : ℕ) (bs : Bytes) → length bs ≤ fuel → Returns (names_loop fuel bs)
unfolding names_loop
names_loop-Returns fuel [] h = value _
names_loop-Returns zero (b ∷ bs) h = absurd (omega arith)
names_loop-Returns (suc fuel) (b ∷ bs) h = >>=-Returns _ _ (get_string_data-Returns (b ∷ bs)) λ r e.
    >>=-Returns _ _
      (names_loop-Returns fuel r.1 (omega (arith, get_string_data-shorter (b ∷ bs) r.0 r.1 e)))
      λ ts _. value _

-- `getUint16(body[2:4])`.
pub slice-Returns : (bs : Bytes) (lo hi : ℕ) → lo ≤ hi → hi ≤ length bs → Returns (slice bs lo hi)
unfolding slice
slice-Returns bs lo hi h k = Returns-of _ (λ e. ground arith) (λ e. ground arith)

pub uint16_slice-Returns : (bs s : Bytes) → slice bs 2 4 ≡ ok s → Returns (get_uint16 s)
uint16_slice-Returns bs s h = get_uint16-Returns s (omega (arith, length-slice bs 2 4 h))

-- A guard that says nothing of the length.
pub guard_any-Returns {ℓ} :
    {B : Type ℓ} (b : Bool) (e : Error) (k : Unit {0} → Result B)
    → Returns (k tt)
    → Returns (guard b e >>= k)
guard_any-Returns true e k h = h
guard_any-Returns false e k h = error e

pub ruleset reads = (
  >>=-Returns, value, get_string_data-Returns, get_binary_data-Returns, get_uint16-Returns,
  index-Returns, tail_from-Returns, slice-Returns, uint16_slice-Returns, text_if-Returns,
  will_if-Returns,
)
