-- ===== src/Util/RawProps/Chunks.antt =====
-- The raw value of a subscription id property: every number in it says how many bytes it has.
use libmqtt.Prelude.{
  ℕ, zero, suc, ◌+◌, ◌-◌, ◌≤◌, ◌<◌, ◌≡◌, refl, sym, ap, ◌∙◌, arith, [], ◌∷◌, ◌++◌, append-nil,
  append_assoc, ◌==◌, length, take, drop, length-take, some, ok, >>=-eq-ok, inl, inr, Bool-cases,
}
use libmqtt.Keys
use mathlib.Core.Path.{subst}
use libmqtt.Util.Bytes.{Bytes}
use libmqtt.Util.VarInt.{RemainLength, get_remain_length}
use libmqtt.Util.VarInt.Local.{byte_count_local}
use libmqtt.Util.RawProps.{
  RawProps, raw_get, raw_append, var_int, prop_kind, slice, prop_value, prop_step, advance,
  raw_props_loop, raw_props_body, get_raw_props,
}
use libmqtt.Util.RawProps.Total.{length-slice, recovered-eq-ok}

pub data Chunks : Bytes → Type 0 where
  end : Chunks []
  more :
      {u : Bytes} (c v : Bytes)
      → u ≡ c ++ v
      → 0 < length c
      → ((w : Bytes) → (get_remain_length (c ++ w)).byte_count ≡ length c)
      → Chunks v
      → Chunks u

-- A value may be appended if it is empty or one number.
data IsChunk (c : Bytes) : Type 0 where
  nothing : c ≡ [] → IsChunk c
  number :
      0 < length c → ((w : Bytes) → (get_remain_length (c ++ w)).byte_count ≡ length c) → IsChunk c

Chunks-append : (u c : Bytes) → Chunks u → IsChunk c → Chunks (u ++ c)
Chunks-append u c h (nothing e) = rw (e, append-nil u) h
Chunks-append u c end (number p f) = more c [] (sym (append-nil c)) p f end
Chunks-append u c (more d v e q g t) (number p f) =
    more d (v ++ c) (ap (λ x. x ++ c) e ∙ append_assoc d v c) q g (Chunks-append v c t (number p f))

slice-take :
    (buf : Bytes) (hi : ℕ) (s : Bytes) → slice buf 1 (1 + hi) ≡ ok s → s ≡ take hi (drop 1 buf)
unfolding slice
slice-take buf hi s h =
    let e : 1 + hi - 1 ≡ hi = omega arith in ground (arith, ap (λ (t : ℕ). take t (drop 1 buf)) e)

take-take : (n m : ℕ) (xs : Bytes) → n ≤ m → take n (take m xs) ≡ take n xs
take-take zero m xs h = refl
take-take (suc n) zero xs h = absurd (omega arith)
take-take (suc n) (suc m) [] h = refl
take-take (suc n) (suc m) (x ∷ xs) h = ap (◌∷◌ x) (take-take n m xs (omega arith))

-- The bytes cut for the number, which the reader saw up to the end of the block.
var_int-IsChunk :
    (buf : Bytes) (vis : ℕ) (p : Bytes)
    → prop_value var_int buf vis ≡ ok p
    → 1 + length p ≤ vis
    → IsChunk p
unfolding prop_value
var_int-IsChunk buf vis p h fits = cut (length p) refl
  where
    seen : Bytes
    seen = take (vis - 1) (drop 1 buf)

    n : ℕ
    n = (get_remain_length seen).byte_count

    size : length p ≡ n
    size = omega (arith, length-slice buf 1 (1 + n) h)

    value : p ≡ take n seen
    value =
        slice-take buf n p h ∙ sym (take-take n (vis - 1) (drop 1 buf) (omega (arith, size, fits)))

    long : n ≤ length seen
    long = omega (arith, size, ap length value, length-take n seen)

    cut : (k : ℕ) → length p ≡ k → IsChunk p
    cut zero e = nothing (value ∙ rw (sym size ∙ e))
    cut (suc k) e = number (omega (arith, e)) λ w.
        rw value
          (byte_count_local seen w (omega (arith, e, size)) long ∙ sym size ∙ ap length value)

abbrev pub IsChunked : RawProps → Type 0
IsChunked [] = Unit
IsChunked ((k, v) ∷ props) = (k ≡ Keys.sub_id → Chunks v) × IsChunked props

raw_append-IsChunked :
    (k : ℕ) (p : Bytes) (props : RawProps)
    → (k ≡ Keys.sub_id → IsChunk p)
    → IsChunked props
    → IsChunked (raw_append k p props)
unfolding raw_append
raw_append-IsChunked k p [] h s = ((λ e. Chunks-append [] p end (h e)), tt)
raw_append-IsChunked k p ((j, v) ∷ m) h s = elim (Bool-cases (j == k)) [
  | inl same ↦
      let q : j ≡ k = ground arith in
      rw same ((λ e. Chunks-append v p (s.0 e) (h (sym q ∙ e))), s.1)
  | inr other ↦ rw other (s.0, raw_append-IsChunked k p m h s.1)
]

step-IsChunk :
    (k : ℕ) (buf : Bytes) (vis : ℕ) (p : Bytes)
    → prop_step k buf vis ≡ ok p
    → 1 + length p ≤ vis
    → k ≡ Keys.sub_id
    → IsChunk p
unfolding prop_step prop_kind
step-IsChunk k buf vis p h fits e =
    let h' : prop_step Keys.sub_id buf vis ≡ ok p = subst (λ k. prop_step k buf vis ≡ ok p) e h in
    var_int-IsChunk buf vis p h' fits

advance_fits : (n : ℕ) (buf : Bytes) (vis : ℕ) {b : Bytes × ℕ} → advance n buf vis ≡ ok b → n ≤ vis
unfolding advance
advance_fits n buf vis h = ground arith

raw_props_loop-IsChunked :
    (fuel : ℕ) (buf : Bytes) (left : ℕ) (props : RawProps) (r : RawProps)
    → IsChunked props
    → raw_props_loop fuel buf left props ≡ ok r
    → IsChunked r
unfolding raw_props_loop
raw_props_loop-IsChunked fuel buf zero props r s h =
    let q : props ≡ r = ground arith in subst IsChunked q s
raw_props_loop-IsChunked zero buf (suc left) props r s h = cc
raw_props_loop-IsChunked (suc fuel) [] (suc left) props r s h = cc
raw_props_loop-IsChunked (suc fuel) (k ∷ bs) (suc left) props r s h =
    let (p, e, h') = >>=-eq-ok (prop_step k (k ∷ bs) (suc left)) _ h in
    let (b, e', h'') = >>=-eq-ok (advance (1 + length p) (k ∷ bs) (suc left)) _ h' in
    raw_props_loop-IsChunked fuel b.0 b.1 (raw_append k p props) r
      (raw_append-IsChunked k p props (step-IsChunk k _ _ p e (advance_fits _ _ _ e')) s) h''

-- In what `getRawProps` returns, the value of a subscription id is a row of variable byte integers, each
-- of which is read as long as it is whatever follows it.
pub get_raw_props-IsChunked :
    (d : Bytes) (props : RawProps) (next : Bytes)
    → get_raw_props d ≡ ok (props, next)
    → IsChunked props
unfolding get_raw_props raw_props_body
get_raw_props-IsChunked d props next h =
    let (u, e, h') = >>=-eq-ok (slice d n.byte_count (n.value + n.byte_count)) _ body in
    let (r, e', h'') = >>=-eq-ok (raw_props_loop n.value (drop n.byte_count d) n.value []) _ h' in
    let q : r ≡ props = cc in subst IsChunked q (raw_props_loop-IsChunked _ _ _ [] r tt e')
  where
    n : RemainLength
    n = get_remain_length d

    body : raw_props_body d ≡ ok (props, next)
    body = recovered-eq-ok (raw_props_body d) h

pub raw_get-Chunks :
    (props : RawProps) (v : Bytes) → IsChunked props → raw_get Keys.sub_id props ≡ some v → Chunks v
unfolding raw_get
raw_get-Chunks [] v s h = absurd (ground arith)
raw_get-Chunks ((j, w) ∷ m) v s h = elim (Bool-cases (j == Keys.sub_id)) [
  | inl same ↦
      let q : j ≡ Keys.sub_id = ground arith in
      let r : w ≡ v = ground arith in subst Chunks r (s.0 q)
  | inr other ↦ raw_get-Chunks m v s.1 (ground arith)
]
