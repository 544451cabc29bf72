-- ===== src/Persist/Strategy.antt =====
-- persist.go, `PersistStrategy`, and the map that both methods keep, a `sync.Map` with one entry for a
-- key. Its calls run one at a time.
use libmqtt.Prelude.{ℕ, Bool, List, [], ◌∷◌, if◌then◌else◌, Option, none, some, bytes_eq}
use libmqtt.Util.Bytes.{Bytes}

-- The interval is in nanoseconds.
pub record PersistStrategy : Type 0 where
  pub interval : ℕ
  pub max_count : ℕ
  pub drop_on_exceed : Bool
  pub duplicate_replace : Bool

-- A packet kept is the value behind an interface, which may be nil: `none`.
abbrev pub Table : Type 0 → Type 0
Table P = List (Bytes × Option P)

module _ {P : Type 0} where
  unfoldable pub find : Bytes → Table P → Option (Option P)
  find key [] = none
  find key ((k, p) ∷ t) = if bytes_eq k key then some p else find key t

  unfoldable pub put : Bytes → Option P → Table P → Table P
  put key p [] = (key, p) ∷ []
  put key p ((k, q) ∷ t) = if bytes_eq k key then (key, p) ∷ t else (k, q) ∷ put key p t

  unfoldable pub erase : Bytes → Table P → Table P
  erase key [] = []
  erase key ((k, q) ∷ t) = let rest = erase key t in if bytes_eq k key then rest else (k, q) ∷ rest
