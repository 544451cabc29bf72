-- ===== src/Persist/Mem/Bound.antt =====
-- persist.go, `memPersist`: runs of calls, and how many packets they leave.
use libmqtt.Prelude.{
  ◌+◌, ◌^◌, ◌≤◌, ◌<◌, ◌≡◌, refl, arith, true, [], ◌∷◌, length, Option, none, some, err,
  packet_dropped_by_strategy, ◌∙◌, leb, Bool-cases, inl, inr,
}
use libmqtt.Util.Bytes.{Bytes}
use libmqtt.Persist.Strategy.{PersistStrategy, Table, find, put, erase}
use libmqtt.Persist.Mem.{
  MemPersist, new_mem_persist, is_full, load_or_store, store, delete, destroy,
}
use libmqtt.Persist.Mem.Laws.{store-full}

-- The strategy drops at a count that fits its type.
abbrev pub Drops : PersistStrategy → Type 0
Drops s = (0 < s.max_count) × (s.max_count < 2 ^ 32) × (s.drop_on_exceed ≡ true)

module _ {P : Type 0} where
  -- One call that changes the store.
  pub data Step : MemPersist P → MemPersist P → Type 0 where
    stored : (key : Bytes) (p : Option P) (m : MemPersist P) → Step m (store key p m).0
    deleted : (key : Bytes) (m : MemPersist P) → Step m (delete key m).0
    destroyed : (m : MemPersist P) → Step m (destroy m).0

  pub data Run : MemPersist P → MemPersist P → Type 0 where
    start : (m : MemPersist P) → Run m m
    more : {l m n : MemPersist P} → Run l m → Step m n → Run l n

  length-put : (key : Bytes) (p : Option P) (t : Table P) → length (put key p t) ≤ length t + 1
  unfolding put
  length-put key p [] = ground arith
  length-put key p ((k, q) ∷ t) = ground (arith, length-put key p t)

  length-replace :
      (key : Bytes) (p q : Option P) (t : Table P)
      → find key t ≡ some q
      → length (put key p t) ≡ length t
  unfolding put find
  length-replace key p q [] h = ground arith
  length-replace key p q ((k, r) ∷ t) h = ground (arith, length-replace key p q t)

  length-erase : (key : Bytes) (t : Table P) → length (erase key t) ≤ length t
  unfolding erase
  length-erase key [] = ground arith
  length-erase key ((k, q) ∷ t) = ground (arith, length-erase key t)

  -- What each call keeps: the counter covers the packets, and stays at or below the count.
  abbrev pub IsCounted : MemPersist P → Type 0
  IsCounted m = (length m.entries ≤ m.n) × (m.n ≤ m.strategy.max_count)

  load_or_store-IsCounted :
      (key : Bytes) (p : Option P) (m : MemPersist P) (old : Option (Option P))
      → find key m.entries ≡ old
      → m.strategy.max_count < 2 ^ 32
      → m.n < m.strategy.max_count
      → length m.entries ≤ m.n
      → IsCounted (load_or_store old key p m)
        × ((load_or_store old key p m).strategy ≡ m.strategy)
        × (m.n ≤ (load_or_store old key p m).n)
  unfolding load_or_store
  load_or_store-IsCounted key p m none e a b c = ground (arith, length-put key p m.entries)
  load_or_store-IsCounted key p m (some q) e a b c =
      ground (arith, length-replace key p q m.entries e)

  store-IsCounted :
      (key : Bytes) (p : Option P) (m : MemPersist P)
      → Drops m.strategy
      → IsCounted m
      → IsCounted (store key p m).0 × ((store key p m).0.strategy ≡ m.strategy)
  unfolding store is_full
  store-IsCounted key p m (positive, fits, drops) (covers, below) =
      elim (Bool-cases (leb m.strategy.max_count m.n)) [
        | inl h ↦ ground arith
        | inr h ↦
            let kept =
              load_or_store-IsCounted key p m (find key m.entries) refl fits (ground (arith, h))
                covers in
            ground (arith, kept)
      ]

  Step-IsCounted :
      {m m' : MemPersist P}
      → Step m m'
      → Drops m.strategy
      → IsCounted m
      → IsCounted m' × (m'.strategy ≡ m.strategy)
  unfolding delete destroy
  Step-IsCounted (stored key p m) d c = store-IsCounted key p m d c
  Step-IsCounted (deleted key m) d (covers, below) =
      ((omega (arith, length-erase key m.entries), below), refl)
  Step-IsCounted (destroyed m) d (covers, below) = ((omega arith, below), refl)

  Run-IsCounted :
      {m m' : MemPersist P}
      → Run m m'
      → Drops m.strategy
      → IsCounted m
      → IsCounted m' × (m'.strategy ≡ m.strategy)
  Run-IsCounted (start m) d c = (c, refl)
  Run-IsCounted (more r s) d c =
      let before = Run-IsCounted r d c in
      let after = Step-IsCounted s (rw before.1 d) before.0 in (after.0, after.1 ∙ before.1)

  -- Whatever calls are made on a new store whose strategy drops at a count, it never holds more
  -- packets than that count.
  pub Run-bounded :
      (s : PersistStrategy) (m : MemPersist P)
      → Drops s
      → Run (new_mem_persist (some s)) m
      → length m.entries ≤ s.max_count
  unfolding new_mem_persist
  Run-bounded s m d r = let c = Run-IsCounted r d (omega arith, omega arith) in ground (arith, c)

  Step-is_full : {m m' : MemPersist P} → Step m m' → is_full m ≡ true → is_full m' ≡ true
  unfolding store delete destroy is_full
  Step-is_full (stored key p m) h = rw h h
  Step-is_full (deleted key m) h = h
  Step-is_full (destroyed m) h = h

  Run-is_full : {m m' : MemPersist P} → Run m m' → is_full m ≡ true → is_full m' ≡ true
  Run-is_full (start m) h = h
  Run-is_full (more r s) h = Step-is_full s (Run-is_full r h)

  -- Once a store is full, every later store is refused and changes nothing, also after packets have
  -- been deleted or the store destroyed.
  pub Run-full :
      (m m' : MemPersist P) (key : Bytes) (p : Option P)
      → is_full m ≡ true
      → Run m m'
      → store key p m' ≡ (m', err packet_dropped_by_strategy)
  Run-full m m' key p h r = store-full key p m' (Run-is_full r h)
