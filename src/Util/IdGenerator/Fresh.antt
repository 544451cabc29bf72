-- ===== src/Util/IdGenerator/Fresh.antt =====
-- The generator where the next candidate is free.
use libmqtt.Prelude.{
  ℕ, ◌<◌, ◌≡◌, refl, arith, false, List, [], ◌∷◌, ◌==◌, if◌then◌else◌, none, some,
}
use libmqtt.Util.IdGenerator.{
  IdGenerator, lookup, insert, remove, get_extra, used, free, to_uint16, first_counter, next,
}

module _ {A : Type 0} where
  pub lookup-insert :
      (i j : ℕ) (a : A) (m : List (ℕ × A))
      → lookup j (insert i a m) ≡ (if i == j then some a else lookup j m)
  unfolding lookup insert
  lookup-insert i j a [] = refl
  lookup-insert i j a ((k, b) ∷ m) = ground (arith, lookup-insert i j a m)

  pub lookup-remove :
      (i j : ℕ) (m : List (ℕ × A)) → lookup j (remove i m) ≡ (if i == j then none else lookup j m)
  unfolding lookup remove
  lookup-remove i j [] = ground arith
  lookup-remove i j ((k, b) ∷ m) = ground (arith, lookup-remove i j m)

  -- The id that the next call tries first.
  unfoldable pub candidate : IdGenerator A → ℕ
  candidate g = to_uint16 (first_counter g.next_id)

  pub candidate_range : (g : IdGenerator A) → (0 < candidate g) × (candidate g < 65536)
  unfolding candidate first_counter
  candidate_range g = ground arith

  -- If the candidate is not in use, `next` returns it. It is from 1 to 65535, it stands for the given
  -- value afterwards, and every other id for what it stood for.
  pub next-candidate :
      (a : A) (g : IdGenerator A) (j : ℕ)
      → used (candidate g) g ≡ false
      → ((next a g).0 ≡ candidate g)
        × (0 < candidate g)
        × (candidate g < 65536)
        × (get_extra j (next a g).1 ≡ (if candidate g == j then some a else get_extra j g))
  unfolding next candidate used get_extra
  next-candidate a g j h = ground (
    arith,
    candidate_range g,
    lookup-insert (candidate g) j a g.used_ids,
    lookup-insert (candidate g) (candidate g) a g.used_ids,
  )

  -- A freed id stands for nothing, and every other id for what it stood for.
  pub get_extra-free :
      (id j : ℕ) (g : IdGenerator A)
      → get_extra j (free id g) ≡ (if id == j then none else get_extra j g)
  unfolding get_extra free
  get_extra-free id j g = lookup-remove id j g.used_ids
