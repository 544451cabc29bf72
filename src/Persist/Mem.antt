-- ===== src/Persist/Mem.antt =====
-- persist.go, `memPersist`: packets kept in memory. The receiver is not nil.
pub mod Laws
pub mod Bound
pub mod Replay
pub mod Range
use libmqtt.Prelude.{
  ℕ, ◌+◌, ◌%◌, ◌^◌, Bool, true, false, List, [], ◌∷◌, ltb, leb, ◌&&◌, if◌then◌else◌, Option, none,
  some, Result, ok, err, panic, stuck, Error, packet_dropped_by_strategy,
}
use libmqtt.Util.Bytes.{Bytes}
use libmqtt.Persist.Strategy.{PersistStrategy, Table, find, put, erase}

unfoldable pub default_persist_strategy : PersistStrategy
default_persist_strategy = record {
  interval = 1000000000;
  max_count = 0;
  drop_on_exceed = false;
  duplicate_replace = true;
}

pub record MemPersist (P : Type 0) : Type 0 where
  pub entries : Table P
  pub n : ℕ
  pub strategy : PersistStrategy

module _ {P : Type 0} where
  unfoldable pub new_mem_persist : Option PersistStrategy → MemPersist P
  new_mem_persist none = record { entries = []; n = 0; strategy = default_persist_strategy }
  new_mem_persist (some s) = record { entries = []; n = 0; strategy = s }

  -- A store is refused at the count, if the strategy drops there.
  unfoldable pub is_full : MemPersist P → Bool
  is_full m =
      ltb 0 m.strategy.max_count && leb m.strategy.max_count m.n && m.strategy.drop_on_exceed

  -- `LoadOrStore`, by what the key has.
  unfoldable pub load_or_store : Option (Option P) → Bytes → Option P → MemPersist P → MemPersist P
  load_or_store none key p m = record m { entries = put key p m.entries; n = (m.n + 1) % 2 ^ 32 }
  load_or_store (some q) key p m =
      if m.strategy.duplicate_replace then record m { entries = put key p m.entries } else m

  unfoldable pub store : Bytes → Option P → MemPersist P → MemPersist P × Result (Unit {0})
  store key p m =
      if is_full m
      then (m, err packet_dropped_by_strategy)
      else (load_or_store (find key m.entries) key p m, ok tt)

  -- A packet, or nil, and whether there was one.
  unfoldable pub load : Bytes → MemPersist P → Option P × Bool
  load key m = loaded (find key m.entries)
    where
      loaded : Option (Option P) → Option P × Bool
      loaded none = (none, false)
      loaded (some p) = (p, true)

  unfoldable pub delete : Bytes → MemPersist P → MemPersist P × Result (Unit {0})
  delete key m = (record m { entries = erase key m.entries }, ok tt)

  unfoldable pub destroy : MemPersist P → MemPersist P × Result (Unit {0})
  destroy m = (record m { entries = [] }, ok tt)

  abbrev pub with_first : Bytes × P → Result (List (Bytes × P)) → Result (List (Bytes × P))
  with_first e (ok es) = ok (e ∷ es)
  with_first e r = r

  -- The entries that a function is called with, which says whether to go on. The assertion that a value
  -- is a packet panics for nil.
  unfoldable pub range_table : (Bytes → P → Bool) → Table P → Result (List (Bytes × P))
  range_table f [] = ok []
  range_table f ((key, none) ∷ t) = panic
  range_table f ((key, some p) ∷ t) =
      let rest = range_table f t in with_first (key, p) (if f key p then rest else ok [])

  unfoldable pub range : (Bytes → P → Bool) → MemPersist P → Result (List (Bytes × P))
  range f m = range_table f m.entries
