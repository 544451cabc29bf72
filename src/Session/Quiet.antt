-- ===== src/Session/Quiet.antt =====
-- client_conn.go, `logic`: what no packet from the server can do.
use libmqtt.Prelude.{
  ℕ, ◌≤◌, ◌≡◌, refl, sym, ◌∙◌, arith, List, [], ◌++◌, append-nil, length, ◌==◌, Option, none, some,
  Bool-cases, inl, inr, ◌⊎◌,
}
use libmqtt.Util.Bytes.{Bytes}
use libmqtt.Util.IdGenerator.{IdGenerator, get_extra, free}
use libmqtt.Util.IdGenerator.Fresh.{get_extra-free}
use libmqtt.Packets.Types.{
  PublishPacket, AckPacket, SubAckPacket, UnsubAckPacket, Packet, publish, pub_ack, pub_recv,
  pub_rel, pub_comp, subscribe, sub_ack, unsub, unsub_ack,
}
use libmqtt.Persist.Method.{PersistMethod}
use libmqtt.Session.{
  Session, on_sub_ack, on_unsub_ack, on_pub_ack, on_pub_recv, on_pub_rel, on_pub_comp, on_publish,
  handle,
}

-- The id stands for what it stood for or for nothing, and the packets handed to `handleSend` are those
-- from before and at most one more.
abbrev pub IsQuiet : {M : Type 0} → ℕ → Session M → Session M → Type 0
IsQuiet j s t =
    ((get_extra j t.ids ≡ get_extra j s.ids) ⊎ (get_extra j t.ids ≡ none))
    × (sent : List Packet) × (t.logic_send ≡ s.logic_send ++ sent)
    × (length sent ≤ 1)

free-either :
    (id j : ℕ) (g : IdGenerator Packet)
    → (get_extra j (free id g) ≡ get_extra j g) ⊎ (get_extra j (free id g) ≡ none)
free-either id j g = elim (Bool-cases (id == j)) [
  | inl h ↦ inr (get_extra-free id j g ∙ rw h refl)
  | inr h ↦ inl (get_extra-free id j g ∙ rw h refl)
]

module _ {M : Type 0} (api : PersistMethod M) (decimal : ℕ → Bytes) (j : ℕ) (s : Session M) where
  same : IsQuiet j s s
  same = (inl refl, [], sym (append-nil s.logic_send), omega arith)

  freed : (id : ℕ) → IsQuiet j s (record s { ids = free id s.ids })
  freed id = (free-either id j s.ids, [], sym (append-nil s.logic_send), omega arith)

  on_sub_ack-IsQuiet :
      (p : SubAckPacket) (o : Option Packet) → IsQuiet j s (on_sub_ack api decimal p o s)
  on_sub_ack-IsQuiet p (some (subscribe q)) = freed p.packet_id
  on_sub_ack-IsQuiet p _ = same

  on_unsub_ack-IsQuiet :
      (p : UnsubAckPacket) (o : Option Packet) → IsQuiet j s (on_unsub_ack api decimal p o s)
  on_unsub_ack-IsQuiet p (some (unsub q)) = freed p.packet_id
  on_unsub_ack-IsQuiet p _ = same

  on_pub_ack-IsQuiet :
      (p : AckPacket) (o : Option Packet) → IsQuiet j s (on_pub_ack api decimal p o s)
  on_pub_ack-IsQuiet p (some (publish q)) = elim (Bool-cases (q.qos == 1)) [
    | inl h ↦ rw h (freed p.packet_id)
    | inr h ↦ rw h same
  ]
  on_pub_ack-IsQuiet p _ = same

  on_pub_recv-IsQuiet :
      (p : AckPacket) (o : Option Packet) → IsQuiet j s (on_pub_recv api decimal p o s)
  on_pub_recv-IsQuiet p (some (publish q)) = elim (Bool-cases (q.qos == 2)) [
    | inl h ↦ rw h (inl refl, _, refl, omega arith)
    | inr h ↦ rw h same
  ]
  on_pub_recv-IsQuiet p _ = same

  on_pub_rel-IsQuiet :
      (p : AckPacket) (o : Option Packet) → IsQuiet j s (on_pub_rel api decimal p o s)
  on_pub_rel-IsQuiet p (some (publish q)) = elim (Bool-cases (q.qos == 2)) [
    | inl h ↦ rw h (inl refl, _, refl, omega arith)
    | inr h ↦ rw h same
  ]
  on_pub_rel-IsQuiet p _ = same

  on_pub_comp-IsQuiet :
      (p : AckPacket) (o : Option Packet) → IsQuiet j s (on_pub_comp api decimal p o s)
  on_pub_comp-IsQuiet p (some (publish q)) = elim (Bool-cases (q.qos == 2)) [
    | inl h ↦ rw h (free-either p.packet_id j s.ids, _, refl, omega arith)
    | inr h ↦ rw h same
  ]
  on_pub_comp-IsQuiet p _ = same

  on_publish-IsQuiet : (p : PublishPacket) → IsQuiet j s (on_publish api decimal p s)
  on_publish-IsQuiet p = elim (Bool-cases (p.qos == 1)) [
    | inl h ↦ rw h (inl refl, _, refl, omega arith)
    | inr h ↦ elim (Bool-cases (p.qos == 2)) [
      | inl k ↦ rw (h, k) (inl refl, _, refl, omega arith)
      | inr k ↦ rw (h, k) same
    ]
  ]

  -- Whatever packet comes in, every id stands for what it stood for or for nothing afterwards, and at
  -- most one packet is handed to `handleSend`, behind those from before.
  pub handle-IsQuiet : (p : Packet) → IsQuiet j s (handle api decimal p s)
  unfolding handle
  handle-IsQuiet (sub_ack p) = on_sub_ack-IsQuiet p (get_extra p.packet_id s.ids)
  handle-IsQuiet (unsub_ack p) = on_unsub_ack-IsQuiet p (get_extra p.packet_id s.ids)
  handle-IsQuiet (publish p) = on_publish-IsQuiet p
  handle-IsQuiet (pub_ack p) = on_pub_ack-IsQuiet p (get_extra p.packet_id s.ids)
  handle-IsQuiet (pub_recv p) = on_pub_recv-IsQuiet p (get_extra p.packet_id s.ids)
  handle-IsQuiet (pub_rel p) = on_pub_rel-IsQuiet p (get_extra p.packet_id s.ids)
  handle-IsQuiet (pub_comp p) = on_pub_comp-IsQuiet p (get_extra p.packet_id s.ids)
  handle-IsQuiet _ = same
