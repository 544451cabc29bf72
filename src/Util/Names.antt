-- ===== src/Util/Names.antt =====
-- A `sync.Map` from names, of router.go and client_async.go: a list of its entries, with one for a name.
use libmqtt.Prelude.{
  ◌≡◌, refl, arith, List, [], ◌∷◌, if◌then◌else◌, Option, none, some, bytes_eq, bytes_eq_sound,
}
use libmqtt.Util.Bytes.{Bytes}

abbrev pub ByName : Type 0 → Type 0
ByName A = List (Bytes × A)

module _ {A : Type 0} where
  unfoldable pub named : Bytes → ByName A → Option A
  named name [] = none
  named name ((k, a) ∷ t) = if bytes_eq k name then some a else named name t

  unfoldable pub with_name : Bytes → A → ByName A → ByName A
  with_name name a [] = (name, a) ∷ []
  with_name name a ((k, b) ∷ t) =
      let rest = with_name name a t in if bytes_eq k name then (name, a) ∷ t else (k, b) ∷ rest

  pub named-with_name :
      (name j : Bytes) (a : A) (t : ByName A)
      → named j (with_name name a t) ≡ (if bytes_eq name j then some a else named j t)
  unfolding named with_name
  named-with_name name j a [] = refl
  named-with_name name j a ((k, b) ∷ t) =
      ground (arith, bytes_eq_sound k name, bytes_eq_sound name j, named-with_name name j a t)
