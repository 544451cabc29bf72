-- ===== src/Session.antt =====
-- client_conn.go: what a connection does with each packet that it receives, in `logic`, and with each
-- packet that `logic` hands to `handleSend`. The id generator and the persist method are those of the
-- client; a channel is the list of what has been sent on it.
pub mod Acks
pub mod Quiet
pub mod Sending
pub mod Sender
pub mod Logic
pub mod Client
pub mod Receive
use libmqtt.Prelude.{
  ℕ, Bool, true, false, List, [], ◌∷◌, ◌++◌, ◌==◌, if◌then◌else◌, Option, none, some, Error, Result,
  ok, err,
}
use libmqtt.Util.Bytes.{Bytes}
use libmqtt.Util.IdGenerator.{IdGenerator, get_extra, free}
use libmqtt.Packets.Types.{
  Topic, PublishPacket, AckPacket, SubAckPacket, UnsubAckPacket, Packet, publish, pub_ack, pub_recv,
  pub_rel, pub_comp, subscribe, sub_ack, unsub, unsub_ack, disconn, set_version,
}
use libmqtt.Packets.Writer.{Writer}
use libmqtt.Packets.Write.{write_to}
use libmqtt.Persist.Method.{PersistMethod}

-- The messages of msg.go that a connection sends. The first three carry no error.
pub data Message : Type 0 where
  pub_msg : Bytes → Message
  sub_msg : List Topic → Message
  unsub_msg : List Bytes → Message
  persist_msg : Packet → Error → Message
  net_msg : Bytes → Error → Message

pub record Session (M : Type 0) : Type 0 where
  pub ids : IdGenerator Packet
  pub kept : M
  pub logic_send : List Packet
  pub client_send : List Packet
  pub received : List PublishPacket
  pub messages : List Message

abbrev pub notify_persist : Packet → Option Error → List Message → List Message
notify_persist p none ms = ms
notify_persist p (some e) ms = ms ++ persist_msg p e ∷ []

-- The topics of a SUBSCRIBE with the QoS levels that its answer grants, as far as it has any.
unfoldable pub granted : List Topic → Bytes → List Topic
granted [] codes = []
granted (t ∷ ts) [] = t ∷ ts
granted (t ∷ ts) (c ∷ codes) = record t { qos = c } ∷ granted ts codes

abbrev pub ack_of : ℕ → AckPacket
ack_of id = record { proto_version = 0; packet_id = id; code = 0; props = none }

-- `fmt.Sprintf("%s%d", …)`, by the decimal digits of the id.
module _ (decimal : ℕ → Bytes) where
  abbrev pub recv_key : ℕ → Bytes
  recv_key id = b'R' ∷ decimal id

  abbrev pub send_key : ℕ → Bytes
  send_key id = b'S' ∷ decimal id

module _ {M : Type 0} where
  abbrev pub send : Packet → Session M → Session M
  send p s = record s { logic_send = s.logic_send ++ p ∷ [] }

  module _ (api : PersistMethod M) (decimal : ℕ → Bytes) where
    -- `notifyPersistMsg(msgCh, p, persist.Store(key, q))`, and the same of `persist.Delete`.
    abbrev pub keep : Bytes → Packet → Packet → Session M → Session M
    keep key p q s =
        let r = api.put_packet key q s.kept in
        record s { kept = r.0; messages = notify_persist p r.1 s.messages }

    abbrev pub forget : Bytes → Packet → Session M → Session M
    forget key p s =
        let r = api.drop_packet key s.kept in
        record s { kept = r.0; messages = notify_persist p r.1 s.messages }

    -- The end of an exchange: the message, the id, the packet kept.
    abbrev pub complete : ℕ → Packet → Message → Session M → Session M
    complete id p m s =
        forget (send_key decimal id) p
          (record s { ids = free id s.ids; messages = s.messages ++ m ∷ [] })

    abbrev pub on_sub_ack : SubAckPacket → Option Packet → Session M → Session M
    on_sub_ack p (some (subscribe q)) s =
        complete p.packet_id (sub_ack p) (sub_msg (granted q.topics p.codes)) s
    on_sub_ack p _ s = s

    abbrev pub on_unsub_ack : UnsubAckPacket → Option Packet → Session M → Session M
    on_unsub_ack p (some (unsub q)) s =
        complete p.packet_id (unsub_ack p) (unsub_msg q.topic_names) s
    on_unsub_ack p _ s = s

    abbrev pub on_publish : PublishPacket → Session M → Session M
    on_publish p s =
        let s1 = record s { received = s.received ++ p ∷ [] } in
        if p.qos == 1
        then keep (recv_key decimal p.packet_id) (publish p) (publish p)
            (send (pub_ack (ack_of p.packet_id)) s1)
        else if p.qos == 2
        then keep (recv_key decimal p.packet_id) (publish p) (publish p)
            (send (pub_recv (ack_of p.packet_id)) s1)
        else s1

    abbrev pub on_pub_ack : AckPacket → Option Packet → Session M → Session M
    on_pub_ack p (some (publish q)) s =
        if q.qos == 1 then complete p.packet_id (pub_ack p) (pub_msg q.topic_name) s else s
    on_pub_ack p _ s = s

    abbrev pub on_pub_recv : AckPacket → Option Packet → Session M → Session M
    on_pub_recv p (some (publish q)) s =
        if q.qos == 2 then send (pub_rel (ack_of p.packet_id)) s else s
    on_pub_recv p _ s = s

    abbrev pub on_pub_rel : AckPacket → Option Packet → Session M → Session M
    on_pub_rel p (some (publish q)) s =
        if q.qos == 2
        then keep (recv_key decimal p.packet_id) (pub_rel p) (pub_rel p)
            (send (pub_comp (ack_of p.packet_id)) s)
        else s
    on_pub_rel p _ s = s

    -- The delete of the kept packet comes in this round, and the store of the PUBREL when `handleSend` writes it.
    abbrev pub on_pub_comp : AckPacket → Option Packet → Session M → Session M
    on_pub_comp p (some (publish q)) s =
        if q.qos == 2
        then complete p.packet_id (pub_comp p) (pub_msg q.topic_name)
            (send (pub_rel (ack_of p.packet_id)) s)
        else s
    on_pub_comp p _ s = s

    -- One round of `logic`, for the packet that came in.
    unfoldable pub handle : Packet → Session M → Session M
    handle (sub_ack p) s = on_sub_ack p (get_extra p.packet_id s.ids) s
    handle (unsub_ack p) s = on_unsub_ack p (get_extra p.packet_id s.ids) s
    handle (publish p) s = on_publish p s
    handle (pub_ack p) s = on_pub_ack p (get_extra p.packet_id s.ids) s
    handle (pub_recv p) s = on_pub_recv p (get_extra p.packet_id s.ids) s
    handle (pub_rel p) s = on_pub_rel p (get_extra p.packet_id s.ids) s
    handle (pub_comp p) s = on_pub_comp p (get_extra p.packet_id s.ids) s
    handle _ s = s

    -- What `handleSend` does behind the write of a packet from `logic`, and whether it goes on.
    unfoldable pub after_write : Packet → Session M → Session M × Bool
    after_write (pub_rel p) s =
        (keep (send_key decimal p.packet_id) (pub_rel p) (pub_rel p) s, true)
    after_write (pub_ack p) s = (forget (send_key decimal p.packet_id) (pub_ack p) s, true)
    after_write (pub_comp p) s = (forget (send_key decimal p.packet_id) (pub_comp p) s, true)
    after_write (disconn p) s = (s, false)
    after_write _ s = (s, true)

    abbrev pub written :
        Packet → Session M → Writer × Result (Unit {0}) → Writer × (Session M × Bool)
    written p s (w, ok _) = (w, after_write p s)
    written p s (w, _) = (w, (s, false))

    -- One round of `handleSend` for a packet from `logic`: it is given the version of the connection and
    -- written. An error ends the loop, and a panic the program.
    unfoldable pub handle_send : ℕ → Packet → Session M → Writer → Writer × (Session M × Bool)
    handle_send version p s w = let q = set_version version p in written q s (write_to q w)
