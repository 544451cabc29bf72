-- ===== src/Util/UserData/Total.antt =====
-- The loop over the user properties ends on every input.
use libmqtt.Prelude.{ℕ, zero, suc, ◌<◌, arith, [], length, Returns, value, inl, inr, Result-cases}
use libmqtt.Util.Bytes.{Bytes}
use libmqtt.Util.Bytes.Total.{get_string_data-Returns, get_string_data-shorter}
use libmqtt.Util.UserData.{UserProps, add, user_props_loop, get_user_props}

user_props_loop-Returns :
    (fuel : ℕ) (d : Bytes) (u : UserProps) → length d < fuel → Returns (user_props_loop fuel d u)
unfolding user_props_loop
user_props_loop-Returns zero d u h = elim h [ ]
user_props_loop-Returns (suc fuel) d u h = elim (Result-cases _ (get_string_data-Returns d)) [
  | inl ((key, next), e) ↦ elim (Result-cases _ (get_string_data-Returns next)) [
    | inl ((val, next'), e') ↦
        rw (e, e', user_props_loop)
          (user_props_loop-Returns fuel next' (add key val u) (
            omega (
              arith,
              get_string_data-shorter d key next e,
              get_string_data-shorter next val next' e',
            )))
    | inr (x, e') ↦ rw (e, e', user_props_loop) (value _)
  ]
  | inr (x, e) ↦ rw (e, user_props_loop) (value _)
]

-- For every input, the loop of `getUserProps` ends, and no read in it panics.
pub get_user_props-Returns : (d : Bytes) → Returns (get_user_props d)
unfolding get_user_props
get_user_props-Returns d = user_props_loop-Returns (suc (length d)) d [] (omega arith)
