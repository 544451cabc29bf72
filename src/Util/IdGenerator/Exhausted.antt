-- ===== src/Util/IdGenerator/Exhausted.antt =====
-- util.go, `next` where every id is in use.
use libmqtt.Prelude.{
  ℕ, zero, suc, ◌+◌, ◌-◌, ◌<◌, ◌≡◌, refl, ◌∙◌, sym, arith, Bool, true, false, List, Option, some,
  none, ap, ◌==◌, if◌then◌else◌, Bool-cases, inl, inr, ◌≤◌,
}
use mathlib.Core.Path.{subst}
use libmqtt.Util.IdGenerator.{
  IdGenerator, is_some, lookup, get_extra, bump, to_uint16, first_counter, search_loop, next, claim,
}
use libmqtt.Util.IdGenerator.Fresh.{candidate, candidate_range, lookup-insert}

bump_low : (n : ℕ) → to_uint16 (bump n) ≡ to_uint16 (to_uint16 n + 1)
bump_low n = omega arith

bump_up : (n : ℕ) → to_uint16 n + 1 < 65536 → to_uint16 (bump n) ≡ to_uint16 n + 1
bump_up n h = omega arith

abbrev found : ℕ → Option ℕ
found c = if c == 1 then none else some 1

low_counter : (n : ℕ) → to_uint16 n < 65536
low_counter n = omega arith

module _ {A : Type 0} where
  -- Every id is in use; 0 is none.
  abbrev pub IsExhausted : List (ℕ × A) → Type 0
  IsExhausted m =
      ((j : ℕ) → 0 < j → j < 65536 → is_some (lookup j m) ≡ true) × (is_some (lookup 0 m) ≡ false)

  search_loop-taken :
      (rounds n : ℕ) (m : List (ℕ × A))
      → is_some (lookup (to_uint16 n) m) ≡ true
      → search_loop (suc rounds) n m ≡ search_loop rounds (bump n) m
  unfolding search_loop
  search_loop-taken rounds n m taken = rw taken refl

  search_loop-zero :
      (rounds n : ℕ) (m : List (ℕ × A))
      → to_uint16 n ≡ 0
      → is_some (lookup 0 m) ≡ false
      → (search_loop (suc rounds) n m).1 ≡ some 1
  unfolding search_loop
  search_loop-zero rounds n m e h = rw (bump_low n, e, h) refl

  -- The search comes to 0 and stops behind it.
  search_loop-one :
      (d rounds n : ℕ) (m : List (ℕ × A))
      → 0 < to_uint16 n
      → to_uint16 n + suc d ≡ 65536
      → IsExhausted m
      → (search_loop (suc (suc d + rounds)) n m).1 ≡ some 1
  search_loop-one zero rounds n m pos e x =
      let more : suc (1 + rounds) ≡ suc (suc rounds) = omega arith in
      rw (more, search_loop-taken (suc rounds) n m (x.0 (to_uint16 n) pos (omega arith)))
        (search_loop-zero rounds (bump n) m (omega arith) x.1)
  search_loop-one (suc d) rounds n m pos e x =
      let small : to_uint16 n + 1 < 65536 = omega arith in
      let up = bump_up n small in
      let more : suc (suc (suc d) + rounds) ≡ suc (suc (suc d + rounds)) = omega arith in
      rw (more, search_loop-taken (suc (suc d + rounds)) n m (x.0 (to_uint16 n) pos (omega arith)))
        (search_loop-one d rounds (bump n) m (rw up (omega arith)) (rw up (omega arith)) x)

  search_loop-ended : (n : ℕ) (m : List (ℕ × A)) → (search_loop 0 n m).1 ≡ none
  unfolding search_loop
  search_loop-ended n m = refl

  -- The rounds run out in front of 0.
  search_loop-none :
      (rounds n : ℕ) (m : List (ℕ × A))
      → 0 < to_uint16 n
      → to_uint16 n + rounds ≤ 65536
      → IsExhausted m
      → (search_loop rounds n m).1 ≡ none
  search_loop-none zero n m pos h x = search_loop-ended n m
  search_loop-none (suc zero) n m pos h x =
      rw (search_loop-taken 0 n m (x.0 (to_uint16 n) pos (omega arith)))
        (search_loop-ended (bump n) m)
  search_loop-none (suc (suc rounds)) n m pos h x =
      let small : to_uint16 n + 1 < 65536 = omega arith in
      let up = bump_up n small in
      rw (search_loop-taken (suc rounds) n m (x.0 (to_uint16 n) pos (omega arith)))
        (search_loop-none (suc rounds) (bump n) m (rw up (omega arith)) (rw up (omega arith)) x)

  search_loop-found :
      (n : ℕ) (m : List (ℕ × A))
      → 0 < to_uint16 n
      → IsExhausted m
      → (search_loop 65535 n m).1 ≡ found (to_uint16 n)
  search_loop-found n m pos x = elim (Bool-cases (to_uint16 n == 1)) [
    | inl e ↦ rw e (search_loop-none 65535 n m pos (ground (arith, e)) x)
    | inr e ↦
        let c = to_uint16 n in
        let big : 1 < c = ground (arith, e, pos) in
        let low = low_counter n in
        let above : c + suc (65535 - c) ≡ 65536 = omega arith in
        let rounds : suc (suc (65535 - c) + (65533 - (65535 - c))) ≡ 65535 = omega arith in
        subst (λ k. (search_loop k n m).1 ≡ found c) rounds
          (search_loop-one (65535 - c) (65533 - (65535 - c)) n m pos above x
            ∙ ap (λ b. if b then none else some 1) (sym e))
  ]

  claim-found :
      (b : Bool) (a : A) (n : ℕ) (m : List (ℕ × A))
      → let t = claim a (n, (if b then none else some 1)) m in
        (t.0 ≡ (if b then 0 else 1)) × (get_extra 1 t.1 ≡ (if b then lookup 1 m else some a))
  unfolding get_extra
  claim-found true a n m = (refl, refl)
  claim-found false a n m = (refl, lookup-insert 1 1 a m)

  -- If every id from 1 to 65535 is in use, and 0 is not, then `next` returns 0 and gives no id a new
  -- meaning only where the search begins at 1. Else it returns 1, which is in use, and 1 stands for
  -- the new value.
  pub next-exhausted :
      (a : A) (g : IdGenerator A)
      → IsExhausted g.used_ids
      → ((next a g).0 ≡ (if candidate g == 1 then 0 else 1))
        × (get_extra 1 (next a g).1 ≡ (if candidate g == 1 then get_extra 1 g else some a))
  unfolding next candidate get_extra
  next-exhausted a g x =
      let n = first_counter g.next_id in
      let (pos, below) = candidate_range g in
      let taken : is_some (lookup (to_uint16 n) g.used_ids) ≡ true = x.0 (to_uint16 n) pos below in
      let r = search_loop 65535 n g.used_ids in
      let e : r.1 ≡ found (to_uint16 n) = search_loop-found n g.used_ids pos x in
      rw (taken, e) (claim-found (to_uint16 n == 1) a r.0 g.used_ids)
