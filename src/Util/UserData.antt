-- ===== src/Util/UserData.antt =====
-- libmqtt.go, `UserProps`, and util.go, `getUserProps`: the user properties, a map from a name to the
-- values that it was given. The list is in the order in which `range` meets the entries; a nil map
-- and an empty one are the same list.
pub mod Total
use libmqtt.Prelude.{
  ℕ, zero, suc, List, [], ◌∷◌, ◌++◌, if◌then◌else◌, length, Option, none, some, Result, ok, err,
  panic, stuck, bytes_eq,
}
use libmqtt.Util.Bytes.{Bytes, encode_string_with_len, get_string_data}

abbrev pub UserProps : Type 0
UserProps = List (Bytes × List Bytes)

-- `u[key] = append(u[key], value)`.
unfoldable pub add : Bytes → Bytes → UserProps → UserProps
unfolding bytes_eq
add key value [] = (key, value ∷ []) ∷ []
add key value ((k, vs) ∷ u) =
    if bytes_eq k key then (k, vs ++ value ∷ []) ∷ u else (k, vs) ∷ add key value u

abbrev first : List Bytes → Option Bytes
first [] = none
first (v ∷ vs) = some v

unfoldable pub get : Bytes → UserProps → Option Bytes
unfolding bytes_eq
get key [] = none
get key ((k, vs) ∷ u) = if bytes_eq k key then first vs else get key u

unfoldable pub set : Bytes → Bytes → UserProps → UserProps
unfolding bytes_eq
set key value [] = (key, value ∷ []) ∷ []
set key value ((k, vs) ∷ u) =
    if bytes_eq k key then (k, value ∷ []) ∷ u else (k, vs) ∷ set key value u

unfoldable pub del : Bytes → UserProps → UserProps
unfolding bytes_eq
del key [] = []
del key ((k, vs) ∷ u) = if bytes_eq k key then u else (k, vs) ∷ del key u

-- The inner loop of `encodeTo`: one name with each of its values.
unfoldable pub encode_values : Bytes → List Bytes → Bytes
unfolding encode_string_with_len
encode_values key [] = []
encode_values key (v ∷ vs) =
    encode_string_with_len key ++ (encode_string_with_len v ++ encode_values key vs)

-- `encodeTo` appends this to its buffer.
unfoldable pub encode_to : UserProps → Bytes
unfolding encode_values
encode_to [] = []
encode_to ((k, vs) ∷ u) = encode_values k vs ++ encode_to u

-- The loop of `getUserProps`. A failed read returns a nil slice, which ends it; a value that cannot
-- be read is the empty text.
unfoldable pub user_props_loop : ℕ → Bytes → UserProps → Result UserProps
user_props_loop zero bytes props = stuck
user_props_loop (suc fuel) bytes props = elim (get_string_data bytes) [
  | ok (key, next) ↦ elim (get_string_data next) [
    | ok (val, next') ↦ user_props_loop fuel next' (add key val props)
    | err e ↦ ok (add key [] props)
    | panic ↦ panic
    | stuck ↦ stuck
  ]
  | err e ↦ ok props
  | panic ↦ panic
  | stuck ↦ stuck
]

unfoldable pub get_user_props : Bytes → Result UserProps
get_user_props bytes = user_props_loop (suc (length bytes)) bytes []
