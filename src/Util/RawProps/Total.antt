-- ===== src/Util/RawProps/Total.antt =====
-- What `getRawProps` returns on any input: it does not panic and it ends, and each value is as long
-- as its key asks for.
use libmqtt.Prelude.{
  ℕ, zero, suc, ◌+◌, ◌-◌, ◌≤◌, ◌≡◌, arith, [], ◌∷◌, length, drop, length-append, length-take,
  length-drop, All, Option, none, some, Result, Error, ok, err, panic, stuck, Returns, value, error,
  Ends, with_value, with_error, with_panic, Ends-of, >>=-Ends, >>=-eq-ok,
}
use mathlib.Core.Path.{subst}
use libmqtt.Util.Bytes.{Bytes, get_uint16}
use libmqtt.Util.VarInt.{RemainLength, get_remain_length}
use libmqtt.Util.RawProps.{
  RawProps, raw_get, raw_append, PropKind, one_byte, two_bytes, four_bytes, text, var_int,
  text_pair, prop_kind, slice, prop_value, prop_step, advance, raw_props_loop, raw_props_body,
  recovered, get_raw_props,
}

-- The bytes that a reader of the value takes without asking for its length.
abbrev pub min_size : Option PropKind → ℕ
min_size (some two_bytes) = 2
min_size (some four_bytes) = 4
min_size _ = 0

abbrev pub IsShaped : RawProps → Type 0
IsShaped props = All (λ (kv : ℕ × Bytes). min_size (prop_kind kv.0) ≤ length kv.1) props

pub length-slice :
    (buf : Bytes) (lo hi : ℕ) {s : Bytes} → slice buf lo hi ≡ ok s → length s ≡ hi - lo
unfolding slice
length-slice buf lo hi h = ground (arith, length-take (hi - lo) (drop lo buf), length-drop lo buf)

prop_value-min_size :
    (kind : PropKind) (buf : Bytes) (vis : ℕ) (p : Bytes)
    → prop_value kind buf vis ≡ ok p
    → min_size (some kind) ≤ length p
unfolding prop_value
prop_value-min_size one_byte buf vis p h = omega arith
prop_value-min_size two_bytes buf vis p h = omega (arith, length-slice buf 1 3 h)
prop_value-min_size four_bytes buf vis p h = omega (arith, length-slice buf 1 5 h)
prop_value-min_size text buf vis p h = omega arith
prop_value-min_size var_int buf vis p h = omega arith
prop_value-min_size text_pair buf vis p h = omega arith

prop_step-min_size :
    (k : ℕ) (buf : Bytes) (vis : ℕ) (p : Bytes)
    → prop_step k buf vis ≡ ok p
    → min_size (prop_kind k) ≤ length p
unfolding prop_step
prop_step-min_size k buf vis p h = at (prop_kind k) h
  where
    at :
        (kind : Option PropKind)
        → (elim kind [ none ↦ err Error.decode_bad_packet | some kind ↦ prop_value kind buf vis ])
          ≡ ok p
        → min_size kind ≤ length p
    at none e = omega arith
    at (some kind) e = prop_value-min_size kind buf vis p e

raw_append-IsShaped :
    (k : ℕ) (p : Bytes) (props : RawProps)
    → min_size (prop_kind k) ≤ length p
    → IsShaped props
    → IsShaped (raw_append k p props)
unfolding raw_append
raw_append-IsShaped k p [] h s = (h, tt)
raw_append-IsShaped k p ((j, v) ∷ m) h s =
    ground (arith, length-append v p, raw_append-IsShaped k p m h s.1)

pub raw_get-min_size :
    (k : ℕ) (props : RawProps) (v : Bytes)
    → IsShaped props
    → raw_get k props ≡ some v
    → min_size (prop_kind k) ≤ length v
unfolding raw_get
raw_get-min_size k [] v s h = ground arith
raw_get-min_size k ((j, w) ∷ m) v s h = ground (arith, raw_get-min_size k m v s.1)

slice-Ends : (buf : Bytes) (lo hi : ℕ) → Ends (slice buf lo hi)
unfolding slice
slice-Ends buf lo hi = Ends-of _ (λ e. ground arith)

get_uint16-Ends : (d : Bytes) → Ends (get_uint16 d)
unfolding get_uint16
get_uint16-Ends [] = with_panic
get_uint16-Ends (a ∷ []) = with_panic
get_uint16-Ends (a ∷ b ∷ d) = with_value _

prop_value-Ends : (kind : PropKind) (buf : Bytes) (vis : ℕ) → Ends (prop_value kind buf vis)
unfolding prop_value
prop_value-Ends one_byte buf vis = slice-Ends buf 1 2
prop_value-Ends two_bytes buf vis = slice-Ends buf 1 3
prop_value-Ends four_bytes buf vis = slice-Ends buf 1 5
prop_value-Ends text buf vis = search (>>=-Ends, slice-Ends, get_uint16-Ends)
prop_value-Ends var_int buf vis = slice-Ends buf 1 _
prop_value-Ends text_pair buf vis = search (>>=-Ends, slice-Ends, get_uint16-Ends)

prop_step-Ends : (k : ℕ) (buf : Bytes) (vis : ℕ) → Ends (prop_step k buf vis)
unfolding prop_step
prop_step-Ends k buf vis =
    elim (prop_kind k)
      as (λ kind.
        Ends (elim kind [
          | none ↦ err Error.decode_bad_packet
          | some kind ↦ prop_value kind buf vis
        ])) [ none ↦ with_error _ | some kind ↦ prop_value-Ends kind buf vis ]

advance-Ends : (n : ℕ) (buf : Bytes) (vis : ℕ) → Ends (advance n buf vis)
unfolding advance
advance-Ends n buf vis = Ends-of _ (λ e. ground arith)

advance-left :
    (n : ℕ) (buf buf' : Bytes) (vis vis' : ℕ) → advance n buf vis ≡ ok (buf', vis') → vis' ≡ vis - n
unfolding advance
advance-left n buf buf' vis vis' h = ground arith

-- The loop ends with the fuel that the code's block length gives.
raw_props_loop-Ends :
    (fuel : ℕ) (buf : Bytes) (left : ℕ) (props : RawProps)
    → left ≤ fuel
    → Ends (raw_props_loop fuel buf left props)
unfolding raw_props_loop
raw_props_loop-Ends fuel buf zero props h = with_value props
raw_props_loop-Ends zero buf (suc left) props h = absurd (omega arith)
raw_props_loop-Ends (suc fuel) [] (suc left) props h = with_panic
raw_props_loop-Ends (suc fuel) (k ∷ bs) (suc left) props h =
    >>=-Ends _ _ (prop_step-Ends k (k ∷ bs) (suc left)) λ p _.
      >>=-Ends _ _ (advance-Ends _ (k ∷ bs) (suc left)) λ b e.
        raw_props_loop-Ends fuel b.0 b.1 _
          (omega (arith, advance-left (1 + length p) (k ∷ bs) b.0 (suc left) b.1 e))

raw_props_loop-IsShaped :
    (fuel : ℕ) (buf : Bytes) (left : ℕ) (props : RawProps) (r : RawProps)
    → IsShaped props
    → raw_props_loop fuel buf left props ≡ ok r
    → IsShaped r
unfolding raw_props_loop
raw_props_loop-IsShaped fuel buf zero props r s h = ground arith
raw_props_loop-IsShaped zero buf (suc left) props r s h = cc
raw_props_loop-IsShaped (suc fuel) [] (suc left) props r s h = cc
raw_props_loop-IsShaped (suc fuel) (k ∷ bs) (suc left) props r s h =
    let (p, e, h') = >>=-eq-ok (prop_step k (k ∷ bs) (suc left)) _ h in
    let (b, e', h'') = >>=-eq-ok (advance (1 + length p) (k ∷ bs) (suc left)) _ h' in
    raw_props_loop-IsShaped fuel b.0 b.1 (raw_append k p props) r
      (raw_append-IsShaped k p props (prop_step-min_size k _ _ p e) s) h''

raw_props_body-Ends : (d : Bytes) → Ends (raw_props_body d)
unfolding raw_props_body
raw_props_body-Ends d =
    >>=-Ends _ _ (slice-Ends d _ _)
      λ _ _. >>=-Ends _ _ (raw_props_loop-Ends _ _ _ [] (omega arith)) λ props _. with_value _

recovered-Returns {ℓ} : {A : Type ℓ} (r : Result A) → Ends r → Returns (recovered r)
recovered-Returns (ok a) h = value a
recovered-Returns (err e) h = error e
recovered-Returns panic h = error _
recovered-Returns stuck h = elim h [ ]

-- `getRawProps` returns properties or an error for every input: its loop ends, and no panic leaves it.
pub get_raw_props-Returns : (d : Bytes) → Returns (get_raw_props d)
unfolding get_raw_props
get_raw_props-Returns d = recovered-Returns _ (raw_props_body-Ends d)

pub recovered-eq-ok {ℓ} : {A : Type ℓ} (r : Result A) {a : A} → recovered r ≡ ok a → r ≡ ok a
recovered-eq-ok (ok b) h = h
recovered-eq-ok (err e) h = cc
recovered-eq-ok panic h = cc
recovered-eq-ok stuck h = cc

-- In what `getRawProps` returns, the value under each key has at least the bytes that its kind needs.
pub get_raw_props-IsShaped :
    (d : Bytes) (props : RawProps) (next : Bytes)
    → get_raw_props d ≡ ok (props, next)
    → IsShaped props
unfolding get_raw_props raw_props_body
get_raw_props-IsShaped d props next h =
    let (u, e, h') = >>=-eq-ok (slice d n.byte_count (n.value + n.byte_count)) _ body in
    let (r, e', h'') = >>=-eq-ok (raw_props_loop n.value (drop n.byte_count d) n.value []) _ h' in
    let q : r ≡ props = cc in subst IsShaped q (raw_props_loop-IsShaped _ _ _ [] r tt e')
  where
    n : RemainLength
    n = get_remain_length d

    body : raw_props_body d ≡ ok (props, next)
    body = recovered-eq-ok (raw_props_body d) h
