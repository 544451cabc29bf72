-- ===== src/Util/IdGenerator.antt =====
-- util.go, `idGenerator`: packet ids, with what each stands for. Calls run one at a time, as under the
-- generator's lock.
pub mod Fresh
pub mod Collision
pub mod Ready
pub mod Exhausted
use libmqtt.Prelude.{
  ℕ, zero, suc, ◌+◌, ◌%◌, ◌^◌, Bool, true, false, List, [], ◌∷◌, ltb, ◌==◌, if◌then◌else◌, Option,
  none, some,
}

-- `nextID` is a `uint32`; an id is its lower half.
pub record IdGenerator (A : Type 0) : Type 0 where
  pub next_id : ℕ
  pub used_ids : List (ℕ × A)

-- `atomic.AddUint32(&g.nextID, 1)`, and the conversion to `uint16`.
abbrev pub bump : ℕ → ℕ
bump n = (n + 1) % 2 ^ 32

abbrev pub to_uint16 : ℕ → ℕ
to_uint16 n = n % 65536

-- The first candidate; 0 is skipped, and then the counter starts again at 1.
unfoldable pub first_counter : ℕ → ℕ
first_counter n = if to_uint16 (bump n) == 0 then 1 else bump n

module _ {A : Type 0} where
  unfoldable pub lookup : ℕ → List (ℕ × A) → Option A
  lookup id [] = none
  lookup id ((j, a) ∷ m) = if j == id then some a else lookup id m

  -- A Go map holds one entry for a key.
  unfoldable pub insert : ℕ → A → List (ℕ × A) → List (ℕ × A)
  insert id a [] = (id, a) ∷ []
  insert id a ((j, b) ∷ m) = if j == id then (id, a) ∷ m else (j, b) ∷ insert id a m

  unfoldable pub remove : ℕ → List (ℕ × A) → List (ℕ × A)
  remove id [] = []
  remove id ((j, b) ∷ m) = let rest = remove id m in if j == id then rest else (j, b) ∷ rest

  abbrev pub is_some : Option A → Bool
  is_some none = false
  is_some (some a) = true

  unfoldable pub get_extra : ℕ → IdGenerator A → Option A
  get_extra id g = lookup id g.used_ids

  unfoldable pub used : ℕ → IdGenerator A → Bool
  unfolding get_extra
  used id g = is_some (get_extra id g)

  unfoldable pub set_used : ℕ → A → IdGenerator A → IdGenerator A
  set_used id a g = record g { used_ids = insert id a g.used_ids }

  unfoldable pub free : ℕ → IdGenerator A → IdGenerator A
  free id g = record g { used_ids = remove id g.used_ids }

  -- The search behind a used id. The first argument counts the rounds left, `math.MaxUint16 - i`. The
  -- id moves on once more after the round that found one free. The result is the counter, and the
  -- id unless the rounds ran out.
  unfoldable pub search_loop : ℕ → ℕ → List (ℕ × A) → ℕ × Option ℕ
  search_loop zero n m = (n, none)
  search_loop (suc rounds) n m =
      let rest = search_loop rounds (bump n) m in
      if is_some (lookup (to_uint16 n) m) then rest else (bump n, some (to_uint16 (bump n)))

  -- An id that is found is marked as used, unless it is 0.
  abbrev pub claim : A → ℕ × Option ℕ → List (ℕ × A) → ℕ × IdGenerator A
  claim a (n, none) m = (0, record { next_id = n; used_ids = m })
  claim a (n, some id) m =
      (id, record { next_id = n; used_ids = if ltb 0 id then insert id a m else m })

  -- `next`: the id, 0 if none was found, and the generator after the call.
  unfoldable pub next : A → IdGenerator A → ℕ × IdGenerator A
  next a g =
      let n = first_counter g.next_id in
      let searched = claim a (search_loop 65535 n g.used_ids) g.used_ids in
      if is_some (lookup (to_uint16 n) g.used_ids)
      then searched
      else claim a (n, some (to_uint16 n)) g.used_ids

unfoldable pub new_id_generator : {A : Type 0} → IdGenerator A
new_id_generator = record { next_id = 0; used_ids = [] }
