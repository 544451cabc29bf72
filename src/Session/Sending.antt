-- ===== src/Session/Sending.antt =====
-- client_conn.go, `handleSend`: what reaches the connection and the store.
use libmqtt.Prelude.{
  bytes_eq_refl, ==_refl, ◌∙◌, ℕ, ◌≤◌, ◌≡◌, refl, true, false, ◌++◌, length, none, some,
}
use libmqtt.Util.Bytes.{Bytes}
use libmqtt.Util.VarInt.{max_msg_size}
use libmqtt.Util.IdGenerator.{get_extra}
use libmqtt.Util.IdGenerator.Fresh.{get_extra-free}
use libmqtt.Packets.Types.{
  v311, AckPacket, PublishPacket, Packet, conn, publish, pub_rel, pub_comp, version, version_of,
  proto_version, set_version,
}
use libmqtt.Packets.Writer.{buffer}
use libmqtt.Packets.Frame.{frame}
use libmqtt.Packets.Frame.V311.{first_byte, body, is_auth, write_to-frame}
use libmqtt.Persist.Method.{PersistMethod, mem_method}
use libmqtt.Persist.Mem.{MemPersist, is_full, load, store, delete}
use libmqtt.Persist.Mem.Laws.{load-store, load-delete}
use libmqtt.Session.{Session, ack_of, send_key, handle, after_write, handle_send}

version-set_version : (p : Packet) → version (set_version v311 p) ≡ v311
unfolding version version_of proto_version set_version
version-set_version (conn p) = refl
version-set_version _ = refl

module _ {M : Type 0} (api : PersistMethod M) (decimal : ℕ → Bytes) where
  -- On a connection of version 3.1.1, a packet that is no AUTH and has a body of a legal length is
  -- written as one frame, and then the store is brought up to date.
  pub handle_send-frame :
      (p : Packet) (s : Session M) (bs : Bytes)
      → is_auth (set_version v311 p) ≡ false
      → length (body (set_version v311 p)) ≤ max_msg_size
      → let q = set_version v311 p in
        handle_send api decimal v311 p s (buffer bs)
        ≡ (buffer (bs ++ frame (first_byte q) (body q)), after_write api decimal q s)
  unfolding handle_send
  handle_send-frame p s bs a h =
      rw (write_to-frame (set_version v311 p) bs (version-set_version p) a h) refl

load-store_deleted :
    (key : Bytes) (p : Packet) (m : MemPersist Packet)
    → is_full m ≡ false
    → load key (store key (some p) (delete key m).0).0 ≡ (some p, true)
unfolding is_full delete
load-store_deleted key p m room =
    let gone : load key (delete key m).0 ≡ (none, false) =
      load-delete key key m ∙ rw bytes_eq_refl refl in
    (load-store key key (some p) (delete key m).0 room).1 ∙ rw (bytes_eq_refl, gone) refl

-- The client's PUBLISH of QoS 2 is answered by its last packet, and the PUBREL that `logic` hands on then
-- is written: the id is free, and the store that is not full keeps that PUBREL under the id's key.
pub after_write-stale :
    (decimal : ℕ → Bytes) (p : AckPacket) (q : PublishPacket) (s : Session (MemPersist Packet))
    → get_extra p.packet_id s.ids ≡ some (publish q)
    → q.qos ≡ 2
    → is_full s.kept ≡ false
    → let t = handle mem_method decimal (pub_comp p) s in
      let u = (after_write mem_method decimal (pub_rel (ack_of p.packet_id)) t).0 in
      (get_extra p.packet_id u.ids ≡ none)
      × (load (send_key decimal p.packet_id) u.kept ≡ (some (pub_rel (ack_of p.packet_id)), true))
unfolding handle after_write
after_write-stale decimal p q s e two room =
    rw (e, two)
      (
        get_extra-free p.packet_id p.packet_id s.ids ∙ rw ==_refl refl,
        load-store_deleted (send_key decimal p.packet_id) (pub_rel (ack_of p.packet_id)) s.kept
            room,
      )
