-- ===== src/Persist/File/Endless.antt =====
-- persist.go, `filePersist` with an interval: `worker` after two stores with one key.
use libmqtt.Prelude.{
  ℕ, zero, suc, ◌+◌, ◌<◌, ◌≡◌, refl, arith, ap, Bool, true, false, [], ◌∷◌, ltb, ◌||◌, Option, none,
  some, ok, stuck, Error, bytes_eq_refl,
}
use libmqtt.Util.Bytes.{Bytes}
use libmqtt.Packets.Types.{Packet}
use libmqtt.Packets.Write.{bytes_of}
use libmqtt.Persist.Strategy.{put, erase}
use libmqtt.Persist.Mem.Replay.{KeepsAll}
use libmqtt.Persist.File.{
  FileSystem, FilePersist, written, save, is_full, buffer, store, get_filename, save, unless_ended,
  save_all, erase_saved, worker,
}

module _ {F : Type 0} (system : FileSystem F) where
  -- A size above zero with no packet in memory.
  worker-idle :
      (fuel : ℕ) (m : FilePersist F)
      → m.in_mem_buf ≡ []
      → 0 < m.in_mem_size
      → worker system fuel m ≡ stuck
  unfolding worker save_all erase_saved
  worker-idle zero m h k = refl
  worker-idle (suc fuel) m h k =
      let positive : ltb 0 m.in_mem_size ≡ true = ground (arith, k) in
      simp (h, positive) (worker-idle fuel (record m { in_mem_buf = [] }) refl k)

  or_true : (b : Bool) → (b || true) ≡ true
  or_true true = refl
  or_true false = refl

  -- Packets are kept in memory first, and none is refused or left out.
  pub record Buffers (m : FilePersist F) : Type 0 where
    pub keeps_all : KeepsAll m.strategy
    pub replaces : m.strategy.duplicate_replace ≡ true
    pub waits : 0 < m.strategy.interval

  store-buffer :
      (key : Bytes) (p : Option Packet) (m : FilePersist F)
      → Buffers m
      → store system key p m ≡ (buffer system key p m, ok tt)
  unfolding store is_full
  store-buffer key p m h =
      let positive : ltb 0 m.strategy.interval ≡ true = ground (arith, h.waits) in
      let room : is_full system m ≡ false = ground (arith, h.keeps_all) in
      simp (room, h.replaces, positive, or_true) refl

  buffer-Buffers :
      (key : Bytes) (p : Option Packet) (m : FilePersist F)
      → Buffers m
      → Buffers (buffer system key p m)
  unfolding buffer
  buffer-Buffers key p m b = record {
    keeps_all = b.keeps_all;
    replaces = b.replaces;
    waits = b.waits;
  }

  -- After a save the buffer is as it was, and a size of two is above zero still.
  saved-two :
      (m : FilePersist F) (r : F × Option Error)
      → m.in_mem_size ≡ 2
      → (m' : FilePersist F) × (unless_ended system (written system m r) ≡ ok m')
        × (m'.in_mem_buf ≡ m.in_mem_buf)
        × (0 < m'.in_mem_size)
  saved-two m (files, none) h = (_, refl, refl, omega (arith, h))
  saved-two m (files, some e) h = (_, refl, refl, omega (arith, h))

  worker-one :
      (fuel : ℕ) (key : Bytes) (q : Packet) (bs : Bytes) (m : FilePersist F)
      → m.in_mem_buf ≡ (key, some q) ∷ []
      → m.in_mem_size ≡ 2
      → bytes_of q ≡ ok bs
      → worker system fuel m ≡ stuck
  unfolding worker save_all erase_saved save erase
  worker-one zero key q bs m h k e = refl
  worker-one (suc fuel) key q bs m h k e =
      let (m', saves, same, positive) =
        saved-two m (system.write_file (get_filename system key m) bs m.files) k in
      let more : ltb 0 m'.in_mem_size ≡ true = ground (arith, positive) in
      simp (h, e, saves, same, more, bytes_eq_refl)
        (worker-idle fuel (record m' { in_mem_buf = [] }) refl positive)

  buffered-twice :
      (key : Bytes) (p q : Option Packet) (m : FilePersist F)
      → m.in_mem_buf ≡ []
      → m.in_mem_size ≡ 0
      → let m' = buffer system key q (buffer system key p m) in
        (m'.workers ≡ m.workers + 1) × (m'.in_mem_buf ≡ (key, q) ∷ []) × (m'.in_mem_size ≡ 2)
  unfolding buffer put
  buffered-twice key p q m e z = (rw z refl, rw (e, bytes_eq_refl key) refl, rw z refl)

  -- Two packets that are stored under one key within one interval count as two and are one, so that
  -- `worker` never ends: no fuel is enough, whether the file can be written or not.
  pub worker-stuck :
      (fuel : ℕ) (key : Bytes) (p q : Packet) (bs : Bytes) (m : FilePersist F)
      → Buffers m
      → m.in_mem_buf ≡ []
      → m.in_mem_size ≡ 0
      → bytes_of q ≡ ok bs
      → let m' = (store system key (some q) (store system key (some p) m).0).0 in
        (m'.workers ≡ m.workers + 1) × (worker system fuel m' ≡ stuck)
  worker-stuck fuel key p q bs m b e z w =
      let m1 = buffer system key (some p) m in
      let m2 = buffer system key (some q) m1 in
      let twice : (store system key (some q) (store system key (some p) m).0).0 ≡ m2 =
        rw (store-buffer key (some p) m b)
          (ap (λ x. x.0) (store-buffer key (some q) m1 (buffer-Buffers key (some p) m b))) in
      let now = buffered-twice key (some p) (some q) m e z in
      rw twice (now.0, worker-one fuel key q bs m2 now.1 now.2 w)
