-- ===== src/Tests/Stores.antt =====
-- The theorems on packet ids and stored packets at concrete inputs.
use libmqtt.Prelude.{
  if◌then◌else◌, zero, suc, ltb, ltb-true, false, ◌∙◌, ◌==◌, ℕ, List, ◌≤◌, ◌≡◌, refl, arith, true,
  [], ◌∷◌, length, some, err, packet_dropped_by_strategy, ok,
}
use libmqtt.Util.Bytes.{Bytes}
use libmqtt.Util.IdGenerator.{IdGenerator, lookup, get_extra, used, first_counter, next, is_some}
use libmqtt.Util.IdGenerator.Fresh.{candidate}
use libmqtt.Util.IdGenerator.Collision.{next-collision}
use libmqtt.Util.IdGenerator.Exhausted.{IsExhausted, next-exhausted}
use libmqtt.Persist.Strategy.{PersistStrategy, find, put}
use libmqtt.Persist.Mem.{
  MemPersist, new_mem_persist, is_full, load_or_store, store, load, delete, range,
}
use libmqtt.Persist.Mem.Replay.{Call, storing, deleting, perform_all, said, load-perform_all}
use libmqtt.Persist.Mem.Range.{as_loaded, range-load}
use libmqtt.Util.Names.{named}
use libmqtt.Persist.Mem.Bound.{start, more, stored, deleted, Run-bounded, Run-full}

-- 1 is the next id; 2 and 3 are in use.
abbrev some_ids : IdGenerator ℕ
some_ids = record { next_id = 0; used_ids = (2, 20) ∷ (3, 30) ∷ [] }

-- 1 is in use, 2 is free, and 3 is in use.
abbrev with_gap : IdGenerator ℕ
with_gap = record { next_id = 0; used_ids = (1, 10) ∷ (3, 30) ∷ [] }

next-collision_example : ((next 99 with_gap).0 ≡ 3) × (get_extra 3 (next 99 with_gap).1 ≡ some 99)
unfolding used get_extra lookup candidate first_counter
next-collision_example = next-collision 99 with_gap refl refl (omega arith)

-- The ids up to a number, each with its number.
unfoldable ids_to : ℕ → List (ℕ × ℕ)
ids_to zero = []
ids_to (suc n) = (suc n, suc n) ∷ ids_to n

lookup-ids_to :
    (n j : ℕ) → is_some (lookup j (ids_to n)) ≡ (if ltb 0 j then ltb j (suc n) else false)
unfolding lookup ids_to
lookup-ids_to zero j = ground arith
lookup-ids_to (suc n) j = ground (arith, lookup-ids_to n j)

-- All ids in use, and a search that begins at 10.
abbrev all_in_use : IdGenerator ℕ
all_in_use = record { next_id = 9; used_ids = ids_to 65535 }

all_in_use-IsExhausted : IsExhausted all_in_use.used_ids
all_in_use-IsExhausted = (
  λ j above below. lookup-ids_to 65535 j ∙ rw (ltb-true 0 j above) (ltb-true j 65536 below),
  lookup-ids_to 65535 0,
)

next-exhausted_example :
    ((next 7 all_in_use).0 ≡ (if candidate all_in_use == 1 then 0 else 1))
    × (get_extra 1 (next 7 all_in_use).1
        ≡ (if candidate all_in_use == 1 then get_extra 1 all_in_use else some 7))
next-exhausted_example = next-exhausted 7 all_in_use all_in_use-IsExhausted

-- One packet at most.
abbrev one_packet : PersistStrategy
one_packet = record { interval = 0; max_count = 1; drop_on_exceed = true; duplicate_replace = true }

abbrev a_key : Bytes
a_key = b'S' ∷ b'1' ∷ []

abbrev fresh : MemPersist ℕ
unfolding new_mem_persist
fresh = new_mem_persist (some one_packet)

abbrev after_store : MemPersist ℕ
after_store = (store a_key (some 7) fresh).0

Run-bounded_example : length after_store.entries ≤ 1
unfolding fresh new_mem_persist
Run-bounded_example =
    Run-bounded one_packet after_store (omega arith, omega arith, refl)
      (more (start fresh) (stored a_key (some 7) fresh))

-- The store is full, its packet is deleted, and the next one is refused all the same.
Run-full_example :
    store a_key (some 8) (delete a_key after_store).0
    ≡ ((delete a_key after_store).0, err packet_dropped_by_strategy)
unfolding is_full new_mem_persist store load_or_store find put
Run-full_example =
    Run-full after_store (delete a_key after_store).0 a_key (some 8) refl
      (more (start after_store) (deleted a_key after_store))

-- Stored, replaced, and another key deleted.
abbrev some_calls : List (Call ℕ)
some_calls = deleting (b'R' ∷ []) ∷ storing a_key (some 8) ∷ storing a_key (some 7) ∷ []

abbrev unlimited : PersistStrategy
unlimited = record { interval = 0; max_count = 0; drop_on_exceed = true; duplicate_replace = true }

load-perform_all_example :
    load a_key (perform_all some_calls (new_mem_persist (some unlimited)))
    ≡ said true a_key some_calls
load-perform_all_example = load-perform_all unlimited some_calls a_key refl

range-load_example :
    let m = perform_all some_calls (new_mem_persist (some unlimited)) in
    (es : List (Bytes × ℕ)) × (range (λ key p. true) m ≡ ok es)
    × ((j : Bytes) → load j m ≡ as_loaded (named j es))
range-load_example = range-load some_calls unlimited (tt, (tt, (tt, tt)))
