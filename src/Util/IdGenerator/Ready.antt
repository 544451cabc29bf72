-- ===== src/Util/IdGenerator/Ready.antt =====
-- util.go, `next` where its counter has not come round and the ids behind it are free.
use libmqtt.Prelude.{
  ℕ, suc, ◌+◌, ◌<◌, ◌≤◌, ◌≡◌, refl, ◌∙◌, arith, Bool, true, false, ◌==◌, if◌then◌else◌, some, ap,
}
use libmqtt.Util.IdGenerator.{
  IdGenerator, get_extra, used, set_used, first_counter, to_uint16, next,
}
use libmqtt.Util.IdGenerator.Fresh.{candidate, next-candidate, lookup-insert}

first_counter-small : (n : ℕ) → n + 1 < 65536 → first_counter n ≡ n + 1
unfolding first_counter
first_counter-small n h = ground (arith, h)

if_twice :
    {B : Type 0} (b : Bool) (x y z : B)
    → (if b then x else (if b then y else z)) ≡ (if b then x else z)
if_twice true x y z = refl
if_twice false x y z = refl

module _ {A : Type 0} where
  -- The counter is at `n`, and none of the `k` ids behind it is in use.
  pub record IsReady (n k : ℕ) (g : IdGenerator A) : Type 0 where
    pub at : g.next_id ≡ n
    pub bounded : n + k < 65536
    pub spare : (j : ℕ) → n < j → j ≤ n + k → used j g ≡ false

  pub IsReady-fewer : (n k : ℕ) (g : IdGenerator A) → IsReady n (suc k) g → IsReady n k g
  IsReady-fewer n k g r =
      let small : n + suc k < 65536 = r.bounded in
      record {
        at = r.at;
        bounded = omega arith;
        spare = λ j above below. r.spare j above (omega arith);
      }

  next-counter :
      (p : A) (g : IdGenerator A)
      → used (candidate g) g ≡ false
      → (next p g).1.next_id ≡ first_counter g.next_id
  unfolding next used get_extra candidate
  next-counter p g h = rw h refl

  candidate-ready : (n k : ℕ) (g : IdGenerator A) → IsReady n (suc k) g → candidate g ≡ n + 1
  unfolding candidate
  candidate-ready n k g r =
      let small : n + suc k < 65536 = r.bounded in
      let c : first_counter g.next_id ≡ n + 1 =
        ap first_counter r.at ∙ first_counter-small n (omega arith) in
      ap to_uint16 c ∙ omega arith

  candidate-spare :
      (n k : ℕ) (g : IdGenerator A) → IsReady n (suc k) g → used (candidate g) g ≡ false
  candidate-spare n k g r =
      rw (candidate-ready n k g r) (r.spare (n + 1) (omega arith) (omega arith))

  -- The id behind the counter is given out.
  pub record IsNumbered (n : ℕ) (p : A) (g t : IdGenerator A) : Type 0 where
    pub counter : t.next_id ≡ n + 1
    pub meaning : (j : ℕ) → get_extra j t ≡ (if n + 1 == j then some p else get_extra j g)

  pub next-IsNumbered :
      (n k : ℕ) (p : A) (g : IdGenerator A)
      → IsReady n (suc k) g
      → ((next p g).0 ≡ n + 1) × IsNumbered n p g (next p g).1
  next-IsNumbered n k p g r =
      let small : n + suc k < 65536 = r.bounded in
      let spare = candidate-spare n k g r in
      let here = candidate-ready n k g r in
      (
        (next-candidate p g 0 spare).0 ∙ here,
        record {
          counter =
              next-counter p g spare ∙ ap first_counter r.at ∙ first_counter-small n (omega arith);
          meaning = λ j.
              (next-candidate p g j spare).3
              ∙ ap (λ i. if i == j then some p else get_extra j g) here;
        },
      )

  -- The generator then points to the packet with its id.
  pub point_to-IsNumbered :
      (n : ℕ) (p q : A) (g t : IdGenerator A)
      → IsNumbered n p g t
      → IsNumbered n q g (set_used (n + 1) q t)
  unfolding get_extra set_used
  point_to-IsNumbered n p q g t h = record {
    counter = h.counter;
    meaning = λ j.
        lookup-insert (n + 1) j q t.used_ids
        ∙ ap (λ o. if n + 1 == j then some q else o) (h.meaning j)
        ∙ if_twice (n + 1 == j) (some q) (some p) (get_extra j g);
  }
