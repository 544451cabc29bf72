-- ===== src/Persist/Mem/Laws.antt =====
-- persist.go, `memPersist`: what a key gives after each operation.
use libmqtt.Prelude.{
  ◌≡◌, refl, arith, Bool, true, false, [], ◌∷◌, if◌then◌else◌, Option, none, some, ok, err,
  packet_dropped_by_strategy, bytes_eq, bytes_eq_sound, ◌&&◌, not,
}
use libmqtt.Util.Bytes.{Bytes}
use libmqtt.Persist.Strategy.{Table, find, put, erase}
use libmqtt.Persist.Mem.{MemPersist, is_full, load_or_store, store, load, delete}

module _ {P : Type 0} where
  pub find-put :
      (key j : Bytes) (p : Option P) (t : Table P)
      → find j (put key p t) ≡ (if bytes_eq key j then some p else find j t)
  unfolding find put
  find-put key j p [] = refl
  find-put key j p ((k, q) ∷ t) =
      ground (arith, bytes_eq_sound k key, bytes_eq_sound key j, find-put key j p t)

  pub find-erase :
      (key j : Bytes) (t : Table P)
      → find j (erase key t) ≡ (if bytes_eq key j then none else find j t)
  unfolding find erase
  find-erase key j [] = ground arith
  find-erase key j ((k, q) ∷ t) =
      ground (arith, bytes_eq_sound k key, bytes_eq_sound key j, find-erase key j t)

  -- What a store leaves at its own key: the new packet if the key had none or the strategy replaces,
  -- and otherwise the old one.
  abbrev pub kept : Bool → Option P × Bool → Option P → Option P
  kept replaces (old, had) p = if had && not replaces then old else p

  -- A store that is not refused returns no error. Its key then has the new packet if it had none or
  -- the strategy replaces, and else the old one, and any other key gives what it gave.
  pub load-store :
      (key j : Bytes) (p : Option P) (m : MemPersist P)
      → is_full m ≡ false
      → ((store key p m).1 ≡ ok tt)
        × (load j (store key p m).0 ≡ (
            if bytes_eq key j
            then (kept m.strategy.duplicate_replace (load key m) p, true)
            else load j m))
  unfolding store load load_or_store
  load-store key j p m h = ground (arith, find-put key j p m.entries, bytes_eq_sound key j)

  -- A store at the count is refused with the error for it, and changes nothing, if the strategy drops.
  pub store-full :
      (key : Bytes) (p : Option P) (m : MemPersist P)
      → is_full m ≡ true
      → store key p m ≡ (m, err packet_dropped_by_strategy)
  unfolding store
  store-full key p m h = rw h refl

  -- A deleted key gives nothing, and any other key gives what it gave.
  pub load-delete :
      (key j : Bytes) (m : MemPersist P)
      → load j (delete key m).0 ≡ (if bytes_eq key j then (none, false) else load j m)
  unfolding load delete
  load-delete key j m = ground (arith, find-erase key j m.entries)
