-- ===== src/Session/Acks.antt =====
-- client_conn.go, `logic`: what the acknowledgements do to the ids, the packets kept and the channels.
use libmqtt.Prelude.{
  ℕ, ◌≡◌, refl, sym, ◌∙◌, arith, false, List, [], ◌∷◌, ◌++◌, append-nil, ◌==◌, if◌then◌else◌,
  Option, none, some, Error, bytes_eq_refl, ==_refl, inl, inr, ◌⊎◌,
}
use libmqtt.Util.Bytes.{Bytes}
use libmqtt.Util.IdGenerator.{get_extra}
use libmqtt.Util.IdGenerator.Fresh.{get_extra-free}
use libmqtt.Packets.Types.{
  PublishPacket, AckPacket, Packet, publish, pub_ack, pub_recv, pub_rel, pub_comp, sub_ack,
  unsub_ack,
}
use libmqtt.Persist.Method.{PersistMethod, Drops}
use libmqtt.Session.{
  Message, pub_msg, persist_msg, Session, notify_persist, ack_of, send_key, send, complete, handle,
}

-- The id that an answer to a packet of this client carries.
abbrev pub answered : Packet → Option ℕ
answered (sub_ack p) = some p.packet_id
answered (unsub_ack p) = some p.packet_id
answered (pub_ack p) = some p.packet_id
answered (pub_recv p) = some p.packet_id
answered (pub_rel p) = some p.packet_id
answered (pub_comp p) = some p.packet_id
answered _ = none

notify_persist-append :
    (p : Packet) (e : Option Error) (ms : List Message)
    → (rest : List Message) × (notify_persist p e ms ≡ ms ++ rest)
notify_persist-append p none ms = ([], sym (append-nil ms))
notify_persist-append p (some e) ms = (persist_msg p e ∷ [], refl)

module _ {M : Type 0} (api : PersistMethod M) (decimal : ℕ → Bytes) where
  -- An answer whose id stands for nothing changes nothing.
  pub handle-unknown :
      (p : Packet) (id : ℕ) (s : Session M)
      → answered p ≡ some id
      → get_extra id s.ids ≡ none
      → handle api decimal p s ≡ s
  unfolding handle
  handle-unknown (sub_ack p) id s h e =
      let none_there : get_extra p.packet_id s.ids ≡ none = ground (arith, h, e) in
      rw none_there refl
  handle-unknown (unsub_ack p) id s h e =
      let none_there : get_extra p.packet_id s.ids ≡ none = ground (arith, h, e) in
      rw none_there refl
  handle-unknown (pub_ack p) id s h e =
      let none_there : get_extra p.packet_id s.ids ≡ none = ground (arith, h, e) in
      rw none_there refl
  handle-unknown (pub_recv p) id s h e =
      let none_there : get_extra p.packet_id s.ids ≡ none = ground (arith, h, e) in
      rw none_there refl
  handle-unknown (pub_rel p) id s h e =
      let none_there : get_extra p.packet_id s.ids ≡ none = ground (arith, h, e) in
      rw none_there refl
  handle-unknown (pub_comp p) id s h e =
      let none_there : get_extra p.packet_id s.ids ≡ none = ground (arith, h, e) in
      rw none_there refl
  handle-unknown _ id s h e = ground arith

  -- What the end of an exchange leaves: nothing under the id and its key, and the message behind
  -- those from before.
  abbrev pub HasEnded : ℕ → Message → Session M → Session M → Type 0
  HasEnded id m s t =
      (get_extra id t.ids ≡ none)
      × (api.packet_of (send_key decimal id) t.kept ≡ (none, false))
      × (rest : List Message) × (t.messages ≡ (s.messages ++ m ∷ []) ++ rest)

  complete-HasEnded :
      (drops : Drops api) (id : ℕ) (p : Packet) (m : Message) (s : Session M)
      → HasEnded id m s (complete api decimal id p m s)
  complete-HasEnded drops id p m s =
      let key = send_key decimal id in
      let (rest, e) =
        notify_persist-append p (api.drop_packet key s.kept).1 (s.messages ++ m ∷ []) in
      (
        get_extra-free id id s.ids ∙ rw ==_refl refl,
        drops key key s.kept ∙ rw bytes_eq_refl refl,
        rest,
        e,
      )

  -- The answer that ends the exchange of a PUBLISH of this client, by its QoS.
  abbrev pub last_answer : ℕ → AckPacket → Packet
  last_answer qos p = if qos == 1 then pub_ack p else pub_comp p

  -- The last answer to a PUBLISH of QoS 1 or 2 that its id stands for frees the id, drops the packet
  -- that was kept for it, and reports its topic, if what the persist method is to delete is gone.
  pub handle-last_answer :
      (drops : Drops api) (p : AckPacket) (q : PublishPacket) (s : Session M)
      → get_extra p.packet_id s.ids ≡ some (publish q)
      → (q.qos ≡ 1) ⊎ (q.qos ≡ 2)
      → HasEnded p.packet_id (pub_msg q.topic_name) s (handle api decimal (last_answer q.qos p) s)
  unfolding handle
  handle-last_answer drops p q s e (inl one) = rw (one, e, one) (complete-HasEnded drops _ _ _ s)
  handle-last_answer drops p q s e (inr two) =
      rw (two, e, two) (complete-HasEnded drops _ _ _ (send (pub_rel (ack_of p.packet_id)) s))
