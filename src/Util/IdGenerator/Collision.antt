-- ===== src/Util/IdGenerator/Collision.antt =====
-- util.go, `next` where its first candidate is in use.
use libmqtt.Prelude.{ℕ, suc, refl, List, ◌≡◌, ◌<◌, arith, true, false, some}
use libmqtt.Util.IdGenerator.{
  IdGenerator, is_some, lookup, get_extra, used, bump, to_uint16, first_counter, search_loop, next,
}
use libmqtt.Util.IdGenerator.Fresh.{candidate, lookup-insert}

module _ {A : Type 0} where
  -- The id behind the candidate, and the one behind that.
  abbrev pub second : IdGenerator A → ℕ
  second g = bump (first_counter g.next_id)

  search_loop-collision :
      (rounds n : ℕ) (m : List (ℕ × A))
      → is_some (lookup (to_uint16 n) m) ≡ true
      → is_some (lookup (to_uint16 (bump n)) m) ≡ false
      → search_loop (suc (suc rounds)) n m ≡ (bump (bump n), some (to_uint16 (bump (bump n))))
  unfolding search_loop
  search_loop-collision rounds n m taken spare = rw (taken, spare) refl

  -- If the candidate is in use, the id behind it is free and the next one is not 0, then `next` returns
  -- that next id, which stands for the given value afterwards, also if it was in use before.
  pub next-collision :
      (a : A) (g : IdGenerator A)
      → used (candidate g) g ≡ true
      → used (to_uint16 (second g)) g ≡ false
      → 0 < to_uint16 (bump (second g))
      → ((next a g).0 ≡ to_uint16 (bump (second g)))
        × (get_extra (to_uint16 (bump (second g))) (next a g).1 ≡ some a)
  unfolding next candidate used get_extra
  next-collision a g taken spare positive = ground (
    arith,
    search_loop-collision 65533 (first_counter g.next_id) g.used_ids taken spare,
    lookup-insert (to_uint16 (bump (second g))) (to_uint16 (bump (second g))) a g.used_ids,
  )
