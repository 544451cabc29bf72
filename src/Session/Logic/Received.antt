-- ===== src/Session/Logic/Received.antt =====
-- client_conn.go, `logic`: the messages that it passes on to the client.
use libmqtt.Prelude.{
  ℕ, ◌≡◌, refl, sym, ◌∙◌, arith, List, [], ◌∷◌, ◌++◌, append-nil, append_assoc, Option, some, Error,
}
use libmqtt.Util.Bytes.{Bytes}
use libmqtt.Util.IdGenerator.{get_extra}
use libmqtt.Packets.Types.{
  PublishPacket, AckPacket, SubAckPacket, UnsubAckPacket, Packet, publish, pub_ack, pub_recv,
  pub_rel, pub_comp, subscribe, sub_ack, unsub, unsub_ack,
}
use libmqtt.Persist.Method.{PersistMethod}
use libmqtt.Session.{
  Session, on_sub_ack, on_unsub_ack, on_publish, on_pub_ack, on_pub_recv, on_pub_rel, on_pub_comp,
  handle,
}
use libmqtt.Session.Logic.{Waking, incoming, logic_loop}

-- The messages among packets.
unfoldable pub messages_in : List Packet → List PublishPacket
messages_in [] = []
messages_in (publish p ∷ ps) = p ∷ messages_in ps
messages_in (_ ∷ ps) = messages_in ps

abbrev pub incoming_all : List Packet → List Waking
incoming_all [] = []
incoming_all (p ∷ ps) = incoming p ∷ incoming_all ps

module _ {M : Type 0} (api : PersistMethod M) (decimal : ℕ → Bytes) (s : Session M) where
  on_sub_ack-received :
      (p : SubAckPacket) (o : Option Packet) → (on_sub_ack api decimal p o s).received ≡ s.received
  on_sub_ack-received p (some (subscribe q)) = refl
  on_sub_ack-received p _ = refl

  on_unsub_ack-received :
      (p : UnsubAckPacket) (o : Option Packet)
      → (on_unsub_ack api decimal p o s).received ≡ s.received
  on_unsub_ack-received p (some (unsub q)) = refl
  on_unsub_ack-received p _ = refl

  on_pub_ack-received :
      (p : AckPacket) (o : Option Packet) → (on_pub_ack api decimal p o s).received ≡ s.received
  on_pub_ack-received p (some (publish q)) = ground arith
  on_pub_ack-received p _ = refl

  on_pub_recv-received :
      (p : AckPacket) (o : Option Packet) → (on_pub_recv api decimal p o s).received ≡ s.received
  on_pub_recv-received p (some (publish q)) = ground arith
  on_pub_recv-received p _ = refl

  on_pub_rel-received :
      (p : AckPacket) (o : Option Packet) → (on_pub_rel api decimal p o s).received ≡ s.received
  on_pub_rel-received p (some (publish q)) = ground arith
  on_pub_rel-received p _ = refl

  on_pub_comp-received :
      (p : AckPacket) (o : Option Packet) → (on_pub_comp api decimal p o s).received ≡ s.received
  on_pub_comp-received p (some (publish q)) = ground arith
  on_pub_comp-received p _ = refl

  on_publish-received :
      (p : PublishPacket) → (on_publish api decimal p s).received ≡ s.received ++ p ∷ []
  on_publish-received p = ground arith

  handle-received :
      (p : Packet) → (handle api decimal p s).received ≡ s.received ++ messages_in (p ∷ [])
  unfolding handle messages_in
  handle-received (publish p) = on_publish-received p
  handle-received (sub_ack p) =
      on_sub_ack-received p (get_extra p.packet_id s.ids) ∙ sym (append-nil s.received)
  handle-received (unsub_ack p) =
      on_unsub_ack-received p (get_extra p.packet_id s.ids) ∙ sym (append-nil s.received)
  handle-received (pub_ack p) =
      on_pub_ack-received p (get_extra p.packet_id s.ids) ∙ sym (append-nil s.received)
  handle-received (pub_recv p) =
      on_pub_recv-received p (get_extra p.packet_id s.ids) ∙ sym (append-nil s.received)
  handle-received (pub_rel p) =
      on_pub_rel-received p (get_extra p.packet_id s.ids) ∙ sym (append-nil s.received)
  handle-received (pub_comp p) =
      on_pub_comp-received p (get_extra p.packet_id s.ids) ∙ sym (append-nil s.received)
  handle-received _ = sym (append-nil s.received)

messages_in-cons :
    (p : Packet) (ps : List Packet) → messages_in (p ∷ ps) ≡ messages_in (p ∷ []) ++ messages_in ps
unfolding messages_in
messages_in-cons (publish p) ps = refl
messages_in-cons _ ps = refl

-- The messages among the packets that come in are passed on to the client in their order, behind those
-- from before.
pub logic_loop-received :
    {M : Type 0} (api : PersistMethod M) (decimal : ℕ → Bytes) (name : Bytes) (e : Option Error)
    (ps : List Packet) (s : Session M)
    → (logic_loop api decimal name e (incoming_all ps) s).received ≡ s.received ++ messages_in ps
unfolding logic_loop
logic_loop-received api decimal name e [] s = unfold messages_in in sym (append-nil s.received)
logic_loop-received api decimal name e (p ∷ ps) s =
    logic_loop-received api decimal name e ps (handle api decimal p s)
    ∙ rw (handle-received api decimal s p, messages_in-cons p ps) (append_assoc s.received _ _)
