-- ===== src/Persist/File/Kept.antt =====
-- persist.go, `filePersist` that saves at once: what is loaded after a store, and after a delete.
use libmqtt.Prelude.{
  ◌≤◌, ◌≡◌, refl, arith, ◌∙◌, Bool, true, false, [], append-nil, length, ◌||◌, if◌then◌else◌,
  Option, none, some, ok, Error, bytes_eq,
}
use mathlib.Core.Path.{subst}
use libmqtt.Util.Bytes.{Bytes}
use libmqtt.Util.VarInt.{max_msg_size}
use libmqtt.Packets.Types.{v311, Packet, version}
use libmqtt.Packets.Frame.V311.{body}
use libmqtt.Packets.Write.{bytes_of}
use libmqtt.Decoder.{decode}
use libmqtt.Decoder.V311.RoundTrip.{received, IsSendable, decode-bytes_of}
use libmqtt.Persist.File.{
  FileSystem, FilePersist, get_filename, written, save, is_full, store, decoded, loaded,
  get_packet_from_file, load, delete,
}

module _ {F : Type 0} (system : FileSystem F) where
  -- Every store is saved at once, in place of what the key had, and the file can be written.
  pub record SavesAtOnce (key : Bytes) (m : FilePersist F) : Type 0 where
    pub has_room : is_full system m ≡ false
    pub replaces : m.strategy.duplicate_replace ≡ true
    pub at_once : m.strategy.interval ≡ 0
    pub writes :
        (content : Bytes) → (system.write_file (get_filename system key m) content m.files).1 ≡ none

  load-after :
      (j : Bytes) (m : FilePersist F) (r : F × Option Error)
      → r.1 ≡ none
      → ((written system m r).1 ≡ ok tt)
        × (load system j (written system m r).0
            ≡ loaded (decoded (system.read_file (get_filename system j m) r.0)))
  unfolding load get_packet_from_file get_filename
  load-after j m (files, none) h = (refl, refl)
  load-after j m (files, some e) h = ground arith

  or_true : (b : Bool) → (b || true) ≡ true
  or_true true = refl
  or_true false = refl

  store-written :
      (key : Bytes) (p : Packet) (bs : Bytes) (m : FilePersist F)
      → SavesAtOnce key m
      → bytes_of p ≡ ok bs
      → store system key (some p) m
        ≡ written system m (system.write_file (get_filename system key m) bs m.files)
  unfolding store save
  store-written key p bs m s e = simp (s.has_room, s.replaces, s.at_once, e, or_true) refl

  if-loaded :
      (b : Bool) (bs : Bytes) (p : Packet) (old : Option Bytes)
      → decode v311 bs ≡ ok (p, [])
      → loaded (decoded (if b then some bs else old))
        ≡ (if b then ok (some p, true) else loaded (decoded old))
  if-loaded true bs p old d = rw d refl
  if-loaded false bs p old d = refl

  -- What the file system has after the write, by the key asked for.
  load-written :
      (key j : Bytes) (p : Packet) (bs : Bytes) (m : FilePersist F)
      → (system.write_file (get_filename system key m) bs m.files).1 ≡ none
      → decode v311 bs ≡ ok (p, [])
      → let r = written system m (system.write_file (get_filename system key m) bs m.files) in
        (r.1 ≡ ok tt)
        × (load system j r.0 ≡ (
            if bytes_eq (get_filename system key m) (get_filename system j m)
            then ok (some p, true)
            else load system j m))
  unfolding load get_packet_from_file get_filename
  load-written key j p bs m h d =
      let r = system.write_file (get_filename system key m) bs m.files in
      let after = load-after j m r h in
      (
        after.0,
        after.1
            ∙ rw
                (system.read_file-write_file (get_filename system key m) (get_filename system j m)
                  bs m.files h)
                (if-loaded _ bs p _ d),
      )

  -- If every store is saved at once and the file can be written, a store of a packet of version 3.1.1
  -- whose fields fit returns no error. The packet is then loaded under each key of that file, up to what the
  -- format does not carry, and any other key gives what it gave.
  pub load-store_at_once :
      (key j : Bytes) (p : Packet) (m : FilePersist F)
      → SavesAtOnce key m
      → version p ≡ v311
      → IsSendable p
      → length (body p) ≤ max_msg_size
      → let r = store system key (some p) m in
        (r.1 ≡ ok tt)
        × (load system j r.0 ≡ (
            if bytes_eq (get_filename system key m) (get_filename system j m)
            then ok (some (received p), true)
            else load system j m))
  load-store_at_once key j p m s v h l =
      let (bs, e, d) = decode-bytes_of p [] v h l in
      rw (store-written key p bs m s e) (
        load-written key j (received p) bs m (s.writes bs)
          (subst (λ x. decode v311 x ≡ ok (received p, [])) (append-nil bs) d))

  -- A delete removes another file than the one that the packet of the key is in, and so what was loaded
  -- under it is loaded still, unless the two files have one path.
  pub load-delete_still :
      (key : Bytes) (m : FilePersist F)
      → bytes_eq (system.join m.dir_path key) (get_filename system key m) ≡ false
      → load system key (delete system key m).0 ≡ load system key m
  unfolding load get_packet_from_file get_filename delete
  load-delete_still key m h = simp (system.read_file-remove _ _ m.files h) refl
