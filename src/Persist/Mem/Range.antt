-- ===== src/Persist/Mem/Range.antt =====
-- persist.go, `memPersist.Range`: the packets that it shows.
use libmqtt.Prelude.{
  ◌≡◌, refl, Bool, true, false, List, [], ◌∷◌, if◌then◌else◌, Option, none, some, Result, ok, All,
  bytes_eq, Bool-cases, inl, inr,
}
use libmqtt.Util.Bytes.{Bytes}
use libmqtt.Util.Names.{named}
use libmqtt.Persist.Strategy.{PersistStrategy, Table, find, put, erase}
use libmqtt.Persist.Mem.{
  MemPersist, new_mem_persist, is_full, load_or_store, store, load, delete, destroy, range_table,
  range,
}
use libmqtt.Persist.Mem.Replay.{Call, storing, deleting, destroying, perform, perform_all}

module _ {P : Type 0} where
  -- No nil packet is kept.
  abbrev HasPackets : Table P → Type 0
  HasPackets [] = Unit
  HasPackets ((k, none) ∷ t) = ⊥
  HasPackets ((k, some p) ∷ t) = HasPackets t

  -- A call stores no nil packet.
  abbrev pub IsProper : Call P → Type 0
  IsProper (storing key none) = ⊥
  IsProper _ = Unit

  if-HasPackets :
      (b : Bool) (t u : Table P) → HasPackets t → HasPackets u → HasPackets (if b then t else u)
  if-HasPackets true t u h k = h
  if-HasPackets false t u h k = k

  put-HasPackets :
      (key : Bytes) (p : P) (t : Table P) → HasPackets t → HasPackets (put key (some p) t)
  unfolding put
  put-HasPackets key p [] h = tt
  put-HasPackets key p ((k, none) ∷ t) h = absurd h
  put-HasPackets key p ((k, some q) ∷ t) h =
      if-HasPackets (bytes_eq k key) _ _ h (put-HasPackets key p t h)

  erase-HasPackets : (key : Bytes) (t : Table P) → HasPackets t → HasPackets (erase key t)
  unfolding erase
  erase-HasPackets key [] h = tt
  erase-HasPackets key ((k, none) ∷ t) h = absurd h
  erase-HasPackets key ((k, some q) ∷ t) h =
      if-HasPackets (bytes_eq k key) _ _ (erase-HasPackets key t h) (erase-HasPackets key t h)

  load_or_store-HasPackets :
      (o : Option (Option P)) (key : Bytes) (p : P) (m : MemPersist P)
      → HasPackets m.entries
      → HasPackets (load_or_store o key (some p) m).entries
  unfolding load_or_store
  load_or_store-HasPackets none key p m h = put-HasPackets key p m.entries h
  load_or_store-HasPackets (some q) key p m h = elim (Bool-cases m.strategy.duplicate_replace) [
    | inl e ↦ rw e (put-HasPackets key p m.entries h)
    | inr e ↦ rw e h
  ]

  chosen-HasPackets :
      (b : Bool) (x y : MemPersist P × Result (Unit {0}))
      → HasPackets x.0.entries
      → HasPackets y.0.entries
      → HasPackets (if b then x else y).0.entries
  chosen-HasPackets true x y h k = h
  chosen-HasPackets false x y h k = k

  perform-HasPackets :
      (c : Call P) (m : MemPersist P)
      → IsProper c
      → HasPackets m.entries
      → HasPackets (perform c m).entries
  unfolding perform store delete destroy
  perform-HasPackets (storing key none) m v h = absurd v
  perform-HasPackets (storing key (some p)) m v h =
      chosen-HasPackets (is_full m) (m, _)
        (load_or_store (find key m.entries) key (some p) m, ok tt) h
        (load_or_store-HasPackets (find key m.entries) key p m h)
  perform-HasPackets (deleting key) m v h = erase-HasPackets key m.entries h
  perform-HasPackets destroying m v h = tt

  perform_all-HasPackets :
      (calls : List (Call P)) (s : PersistStrategy)
      → All IsProper calls
      → HasPackets (perform_all calls (new_mem_persist (some s))).entries
  unfolding perform_all new_mem_persist
  perform_all-HasPackets [] s v = tt
  perform_all-HasPackets (c ∷ earlier) s (v, vs) =
      perform-HasPackets c _ v (perform_all-HasPackets earlier s vs)

  -- What `Load` makes of an entry.
  abbrev pub as_loaded : Option P → Option P × Bool
  as_loaded none = (none, false)
  as_loaded (some p) = (some p, true)

  abbrev as_found : Option P → Option (Option P)
  as_found none = none
  as_found (some p) = some (some p)

  range_table-find :
      (t : Table P)
      → HasPackets t
      → (es : List (Bytes × P)) × (range_table (λ key p. true) t ≡ ok es)
        × ((j : Bytes) → find j t ≡ as_found (named j es))
  unfolding range_table find named
  range_table-find [] h = ([], refl, λ j. refl)
  range_table-find ((k, none) ∷ t) h = absurd h
  range_table-find ((k, some p) ∷ t) h =
      let (es, e, f) = range_table-find t h in
      (
        (k, p) ∷ es,
        rw e refl,
        λ j. elim (Bool-cases (bytes_eq k j)) [ inl b ↦ rw b refl | inr b ↦ rw (b, f j) refl ],
      )

  load-found :
      (m : MemPersist P) (j : Bytes) (o : Option P)
      → find j m.entries ≡ as_found o
      → load j m ≡ as_loaded o
  unfolding load
  load-found m j none e = rw e refl
  load-found m j (some p) e = rw e refl

  -- After any calls on a new store that store no nil packet, `Range` with a function that always goes on
  -- shows packets by their keys, and a key among them gives with `Load` the packet that it is shown
  -- with, any other key none.
  pub range-load :
      (calls : List (Call P)) (s : PersistStrategy)
      → All IsProper calls
      → let m = perform_all calls (new_mem_persist (some s)) in
        (es : List (Bytes × P)) × (range (λ key p. true) m ≡ ok es)
        × ((j : Bytes) → load j m ≡ as_loaded (named j es))
  unfolding range
  range-load calls s v =
      let m = perform_all calls (new_mem_persist (some s)) in
      let (es, e, f) = range_table-find m.entries (perform_all-HasPackets calls s v) in
      (es, e, λ j. load-found m j (named j es) (f j))
