-- ===== src/Props/Defs.antt =====
-- libmqtt.go, `propertySet`: the property block of an MQTT 5 packet before it is written. Also the
-- reads of one raw property that every `setProps` makes.
use libmqtt.Prelude.{
  ℕ, Bool, true, false, List, [], ◌∷◌, ◌++◌, ltb, ◌==◌, if◌then◌else◌, length, Option, none, some,
  Result, ok, err, panic, stuck, ◌>>=◌, ℤ,
}
use libmqtt.Util.Bytes.{
  Bytes, put_uint16, put_uint32, encode_string_with_len, encode_bytes_with_len, get_uint16,
  get_uint32, get_string_data, get_binary_data,
}
use libmqtt.Util.VarInt.{var_int_bytes}
use libmqtt.Util.RawProps.{RawProps, raw_get}
use libmqtt.Util.UserData.{UserProps, encode_to, get_user_props}

-- The dynamic types that `add` tells apart. `bool_ptr none` is a nil `*bool`.
pub data PropValue : Type 0 where
  text : Bytes → PropValue
  binary : Bytes → PropValue
  bool_ptr : Option Bool → PropValue
  flag : Bool → PropValue
  u8 : ℕ → PropValue
  u16 : ℕ → PropValue
  int : ℤ → PropValue
  u32 : ℕ → PropValue
  user : UserProps → PropValue
  nil : PropValue

-- The map, in the order in which `range` meets the keys.
abbrev pub PropertySet : Type 0
PropertySet = List (ℕ × List Bytes)

abbrev flag_byte : Bool → Bytes
flag_byte true = 1 ∷ []
flag_byte false = 0 ∷ []

-- The error of `varIntBytes` is dropped, and leaves a nil slice.
abbrev or_nil : Result Bytes → Result (Option Bytes)
or_nil (ok b) = ok (some b)
or_nil (err e) = ok (some [])
or_nil panic = panic
or_nil stuck = stuck

-- The switch of `add`: the encoded value, `none` where it returns early, and a panic at a nil pointer.
unfoldable pub encode_value : PropValue → Result (Option Bytes)
unfolding put_uint16 put_uint32 encode_string_with_len encode_bytes_with_len
encode_value (text s) = ok (some (if ltb 0 (length s) then encode_string_with_len s else []))
encode_value (binary b) = ok (some (if ltb 0 (length b) then encode_bytes_with_len b else []))
encode_value (bool_ptr none) = panic
encode_value (bool_ptr (some b)) = ok (some (flag_byte b))
encode_value (flag b) = ok (some (flag_byte b))
encode_value (u8 v) = ok (some (if v == 0 then [] else v ∷ []))
encode_value (u16 v) = ok (some (if v == 0 then [] else put_uint16 v))
encode_value (int v) = or_nil (var_int_bytes v)
encode_value (u32 v) = ok (some (if v == 0 then [] else put_uint32 v))
encode_value (user u) = ok (some (encode_to u))
encode_value nil = ok none

-- `if v, ok := p[propKey]; ok { p[propKey] = append(v, val) }`.
unfoldable pub append_value : ℕ → Bytes → PropertySet → PropertySet
append_value key val [] = []
append_value key val ((k, vs) ∷ p) =
    if k == key then (k, vs ++ val ∷ []) ∷ p else (k, vs) ∷ append_value key val p

abbrev pub append_some : ℕ → Option Bytes → PropertySet → PropertySet
append_some key none p = p
append_some key (some val) p = append_value key val p

unfoldable pub add : ℕ → PropValue → PropertySet → Result PropertySet
unfolding encode_value append_value
add key value p = do val ← encode_value value; ok (append_some key val p)

unfoldable pub del : ℕ → PropertySet → PropertySet
del key [] = []
del key ((k, vs) ∷ p) = if k == key then del key p else (k, vs) ∷ del key p

unfoldable pub set : ℕ → PropValue → PropertySet → Result PropertySet
unfolding add del
set key value p = add key value (del key p)

abbrev key_values : ℕ → List Bytes → Bytes
key_values key [] = []
key_values key (v ∷ vs) = key ∷ (v ++ key_values key vs)

unfoldable pub bytes : PropertySet → Bytes
bytes [] = []
bytes ((k, vs) ∷ p) = key_values k vs ++ bytes p

-- Consecutive calls of `set`, in the order of the source.
unfoldable pub set_all : List (ℕ × PropValue) → PropertySet → Result PropertySet
unfolding set
set_all [] p = ok p
set_all ((k, v) ∷ kvs) p = do p' ← set k v p; set_all kvs p'

-- Consecutive calls of `add` with one key.
unfoldable pub add_each : ℕ → List ℤ → PropertySet → Result PropertySet
unfolding add
add_each k [] p = ok p
add_each k (v ∷ vs) p = do p' ← add k (int v) p; add_each k vs p'

-- `propSet := propertySet{}`, the calls of `set`, `propSet.bytes()`.
unfoldable pub set_bytes : List (ℕ × PropValue) → Result Bytes
set_bytes kvs = do p ← set_all kvs []; ok (bytes p)

-- `if v, ok := props[key]; ok { field = getUint32(v) }`, and the like. The second argument is the
-- field's value before.
unfoldable pub read_u32 : ℕ → ℕ → RawProps → Result ℕ
read_u32 key old props = elim (raw_get key props) [ none ↦ ok old | some v ↦ get_uint32 v ]

unfoldable pub read_u16 : ℕ → ℕ → RawProps → Result ℕ
read_u16 key old props = elim (raw_get key props) [ none ↦ ok old | some v ↦ get_uint16 v ]

-- These two are read only from a value of one byte.
abbrev byte_value : ℕ → Bytes → ℕ
byte_value old (b ∷ []) = b
byte_value old _ = old

abbrev flag_value : Option Bool → Bytes → Option Bool
flag_value old (b ∷ []) = some (b == 1)
flag_value old _ = old

unfoldable pub read_byte : ℕ → ℕ → RawProps → ℕ
read_byte key old props = elim (raw_get key props) [ none ↦ old | some v ↦ byte_value old v ]

unfoldable pub read_flag : ℕ → Option Bool → RawProps → Option Bool
read_flag key old props = elim (raw_get key props) [ none ↦ old | some v ↦ flag_value old v ]

-- `field, _, _ = getStringData(v)`: a value that cannot be read leaves the empty text.
abbrev pub payload_or_empty : Result (Bytes × Bytes) → Result Bytes
payload_or_empty (ok (b, next)) = ok b
payload_or_empty (err e) = ok []
payload_or_empty panic = panic
payload_or_empty stuck = stuck

unfoldable pub read_text : ℕ → Bytes → RawProps → Result Bytes
read_text key old props = elim (raw_get key props) [
  | none ↦ ok old
  | some v ↦ payload_or_empty (get_string_data v)
]

unfoldable pub read_binary : ℕ → Bytes → RawProps → Result Bytes
read_binary key old props = elim (raw_get key props) [
  | none ↦ ok old
  | some v ↦ payload_or_empty (get_binary_data v)
]

unfoldable pub read_user : ℕ → UserProps → RawProps → Result UserProps
read_user key old props = elim (raw_get key props) [ none ↦ ok old | some v ↦ get_user_props v ]
