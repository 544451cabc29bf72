-- ===== src/Persist/Method.antt =====
-- persist.go, `PersistMethod`: what a session asks of the place that keeps its packets, and two such
-- places, `memPersist` and `nonePersist`.
use libmqtt.Prelude.{
  ◌≡◌, refl, Bool, true, false, if◌then◌else◌, Option, none, some, Error, Result, err, bytes_eq,
}
use libmqtt.Util.Bytes.{Bytes}
use libmqtt.Packets.Types.{Packet}
use libmqtt.Persist.Mem.{MemPersist, store, load, delete}
use libmqtt.Persist.Mem.Laws.{load-delete}

-- An operation gives the state after it and the error, `none` for nil.
pub record PersistMethod (M : Type 0) : Type 0 where
  pub put_packet : Bytes → Packet → M → M × Option Error
  pub packet_of : Bytes → M → Option Packet × Bool
  pub drop_packet : Bytes → M → M × Option Error

-- A packet that is deleted is gone, and no other. `filePersist` does not do this.
abbrev pub Drops : {M : Type 0} → PersistMethod M → Type 0
Drops {M} api =
    (key j : Bytes) (m : M)
    → api.packet_of j (api.drop_packet key m).0
      ≡ (if bytes_eq key j then (none, false) else api.packet_of j m)

abbrev error_of : Result (Unit {0}) → Option Error
error_of (err e) = some e
error_of _ = none

abbrev pub mem_method : PersistMethod (MemPersist Packet)
mem_method = record {
  put_packet = λ key p m. ((store key (some p) m).0, error_of (store key (some p) m).1);
  packet_of = load;
  drop_packet = λ key m. ((delete key m).0, error_of (delete key m).1);
}

abbrev pub nothing : Option Packet × Bool
nothing = (none, false)

pub none_gives : (b : Bool) → nothing ≡ (if b then nothing else nothing)
none_gives true = refl
none_gives false = refl

unfoldable pub none_method : PersistMethod (Unit {0})
none_method = record {
  put_packet = λ key p m. (m, none);
  packet_of = λ key m. (none, false);
  drop_packet = λ key m. (m, none);
}

pub mem_method-Drops : Drops mem_method
mem_method-Drops = load-delete

pub none_method-Drops : Drops none_method
unfolding none_method
none_method-Drops key j m = none_gives (bytes_eq key j)
