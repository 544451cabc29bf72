-- ===== src/Props/Drops.antt =====
-- libmqtt.go, `propertySet.add` on a set that starts empty, as in every `props()`.
use libmqtt.Prelude.{
  Bool, true, false, if◌then◌else◌, Result, ap, ℕ, ◌≡◌, refl, arith, inl, inr, Bool-cases, ltb,
  List, [], ◌∷◌, Option, none, some, ok, panic, ℤ, pos, negsuc,
}
use libmqtt.Keys
use libmqtt.Util.Bytes.{Bytes}
use libmqtt.Util.VarInt.{max_msg_size}
use libmqtt.Util.VarInt.RoundTrip.{groups, var_int_bytes-groups, var_int_bytes-too_large}
use libmqtt.Props.Defs.{
  PropValue, bool_ptr, int, append_some, encode_value, append_value, add, del, set, set_all,
  add_each, bytes, set_bytes,
}
use libmqtt.Props.Pub.{PublishProps, publish_props}

encode_int : (z : ℤ) → (b : Bytes) × (encode_value (int z) ≡ ok (some b))
unfolding encode_value
encode_int (negsuc n) = ([], rw ((var_int_bytes-too_large n).0) refl)
encode_int (pos n) = elim (Bool-cases (ltb max_msg_size n)) [
  | inl h ↦ ([], rw ((var_int_bytes-too_large n).1 (ground (arith, h))) refl)
  | inr h ↦ (groups 3 n, rw (var_int_bytes-groups n (ground (arith, h))) refl)
]

-- A nil `*bool` that is stored in the interface.
abbrev pub is_nil_ptr : PropValue → Bool
is_nil_ptr (bool_ptr none) = true
is_nil_ptr _ = false

abbrev pub has_nil_ptr : List (ℕ × PropValue) → Bool
has_nil_ptr [] = false
has_nil_ptr ((k, v) ∷ kvs) = if is_nil_ptr v then true else has_nil_ptr kvs

-- The only panic is that of a nil pointer.
abbrev Encodes : Bool → Result (Option Bytes) → Type 0
Encodes true r = r ≡ panic
Encodes false r = (o : Option Bytes) × (r ≡ ok o)

encode_value-Encodes : (v : PropValue) → Encodes (is_nil_ptr v) (encode_value v)
unfolding encode_value
encode_value-Encodes (bool_ptr none) = refl
encode_value-Encodes (int v) = let (b, e) = encode_int v in (some b, e)
encode_value-Encodes _ = (_, refl)

append_some-empty : (k : ℕ) (o : Option Bytes) → append_some k o [] ≡ []
unfolding append_value
append_some-empty k none = refl
append_some-empty k (some b) = refl

set-Encodes :
    (b : Bool) (k : ℕ) (v : PropValue)
    → Encodes b (encode_value v)
    → set k v [] ≡ (if b then panic else ok [])
unfolding set del add
set-Encodes true k v e = rw e refl
set-Encodes false k v (o, e) = rw e (ap (λ p. ok p) (append_some-empty k o))

set_all-empty :
    (kvs : List (ℕ × PropValue)) → set_all kvs [] ≡ (if has_nil_ptr kvs then panic else ok [])
unfolding set_all
set_all-empty [] = refl
set_all-empty ((k, v) ∷ kvs) =
    let e = set-Encodes (is_nil_ptr v) k v (encode_value-Encodes v) in
    elim (Bool-cases (is_nil_ptr v)) [
      | inl h ↦ rw (e, h) refl
      | inr h ↦ rw (e, h) (set_all-empty kvs)
    ]

-- A set that starts empty stays empty: whatever values are set, no byte is written for them, unless
-- one of them is a nil `*bool`, and then setting them panics.
pub set_bytes-cases :
    (kvs : List (ℕ × PropValue)) → set_bytes kvs ≡ (if has_nil_ptr kvs then panic else ok [])
unfolding set_bytes bytes
set_bytes-cases kvs = elim (Bool-cases (has_nil_ptr kvs)) [
  | inl h ↦ rw (set_all-empty kvs, h) refl
  | inr h ↦ rw (set_all-empty kvs, h) refl
]

add_each-empty : (k : ℕ) (ids : List ℤ) → add_each k ids [] ≡ ok []
unfolding add_each add append_value
add_each-empty k [] = refl
add_each-empty k (v ∷ vs) = let (b, e) = encode_int v in rw e (add_each-empty k vs)

-- The properties of a PUBLISH are written as no bytes, whatever they are.
pub publish_props-empty : (p : Option PublishProps) → publish_props p ≡ ok []
unfolding publish_props set_all set add append_value del encode_value bytes
publish_props-empty none = refl
publish_props-empty (some p) = rw (add_each-empty Keys.sub_id p.sub_ids) refl
