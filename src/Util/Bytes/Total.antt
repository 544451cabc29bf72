-- ===== src/Util/Bytes/Total.antt =====
-- The byte helpers return on every input, and move forward.
use libmqtt.Prelude.{
  ◌+◌, ◌*◌, ◌≤◌, ◌≡◌, arith, [], ◌∷◌, length, length-drop, ok, Returns, value, error, Returns-of,
}
use libmqtt.Util.Bytes.{Bytes, get_uint16, get_uint32, get_binary_data, get_string_data}

pub get_uint16-Returns : (d : Bytes) → 2 ≤ length d → Returns (get_uint16 d)
unfolding get_uint16
get_uint16-Returns [] h = absurd (omega arith)
get_uint16-Returns (a ∷ []) h = absurd (omega arith)
get_uint16-Returns (a ∷ b ∷ d) h = value _

pub get_uint32-Returns : (d : Bytes) → 4 ≤ length d → Returns (get_uint32 d)
unfolding get_uint32
get_uint32-Returns [] h = absurd (omega arith)
get_uint32-Returns (a ∷ []) h = absurd (omega arith)
get_uint32-Returns (a ∷ b ∷ []) h = absurd (omega arith)
get_uint32-Returns (a ∷ b ∷ c ∷ []) h = absurd (omega arith)
get_uint32-Returns (a ∷ b ∷ c ∷ e ∷ d) h = value _

pub get_binary_data-Returns : (d : Bytes) → Returns (get_binary_data d)
unfolding get_binary_data
get_binary_data-Returns [] = error _
get_binary_data-Returns (a ∷ []) = error _
get_binary_data-Returns (a ∷ b ∷ d) = Returns-of _ (λ e. ground arith) (λ e. ground arith)

-- What follows a text is shorter by two bytes at least.
pub get_binary_data-shorter :
    (d v rest : Bytes) → get_binary_data d ≡ ok (v, rest) → length rest + 2 ≤ length d
unfolding get_binary_data
get_binary_data-shorter [] v rest h = ground arith
get_binary_data-shorter (a ∷ []) v rest h = ground arith
get_binary_data-shorter (a ∷ b ∷ d) v rest h =
    ground (arith, length-drop (a * 256 + b + 2) (a ∷ b ∷ d))

pub get_string_data-Returns : (d : Bytes) → Returns (get_string_data d)
unfolding get_string_data
get_string_data-Returns d = get_binary_data-Returns d

pub get_string_data-shorter :
    (d v rest : Bytes) → get_string_data d ≡ ok (v, rest) → length rest + 2 ≤ length d
unfolding get_string_data
get_string_data-shorter d v rest h = get_binary_data-shorter d v rest h
