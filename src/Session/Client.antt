-- ===== src/Session/Client.antt =====
-- client_async.go: `Publish`, `Subscribe` and `Unsubscribe`. Each puts packets on the channel
-- that every connection of the client reads.
pub mod Exchange
pub mod Numbers
pub mod Numbered
use libmqtt.Prelude.{
  ℕ, Bool, true, false, List, [], ◌∷◌, ◌++◌, ltb, ◌==◌, if◌then◌else◌, Option, none, some,
}
use libmqtt.Util.Bytes.{Bytes}
use libmqtt.Util.IdGenerator.{IdGenerator, set_used, next}
use libmqtt.Packets.Types.{Topic, PublishPacket, Packet, publish, subscribe, unsub}
use libmqtt.Persist.Method.{PersistMethod}
use libmqtt.Session.{Session, send_key, keep}

-- The generator holds a pointer to the packet, and so the packet with the id that it is given.
abbrev pub point_to : ℕ → Packet → IdGenerator Packet → IdGenerator Packet
point_to id p g = if ltb 0 id then set_used id p g else g

abbrev pub put_on : Packet → {M : Type 0} → Session M → Session M
put_on p s = record s { client_send = s.client_send ++ p ∷ [] }

-- A QoS above 2 is made 2.
abbrev pub capped : PublishPacket → PublishPacket
capped p = if ltb 2 p.qos then record p { qos = 2 } else p

-- A message is a pointer to an object, here its number.
abbrev pub set_object : ℕ → PublishPacket → (ℕ → PublishPacket) → ℕ → PublishPacket
set_object i p f j = if i == j then p else f j

-- The packet of a SUBSCRIBE and of an UNSUBSCRIBE.
abbrev pub subscription : List Topic → ℕ → Packet
subscription topics id =
    subscribe (record { proto_version = 0; packet_id = id; topics = topics; props = none })

abbrev pub unsubscription : List Bytes → ℕ → Packet
unsubscription names id =
    unsub (record { proto_version = 0; packet_id = id; topic_names = names; props = none })

module _ {M : Type 0} where
  -- The id is that of `next`, for a packet that does not have it yet.
  abbrev pub with_id : (ℕ → Packet) → Session M → ℕ × Session M
  with_id packet s =
      let r = next (packet 0) s.ids in (r.0, record s { ids = point_to r.0 (packet r.0) r.1 })

  -- `select` on `stopSig` and the channel: a packet that is put on the channel, or not.
  abbrev pub put_unless : Bool → Packet → Session M → Session M
  put_unless true p s = s
  put_unless false p s = put_on p s

  -- Each call does nothing for a client that is closing. When the client is closed behind that guard,
  -- `select` may take either way: `stop` says whether it takes the signal.
  unfoldable pub subscribe_to : (closing stop : Bool) → List Topic → Session M → Session M
  subscribe_to true stop topics s = s
  subscribe_to false stop topics s =
      let r = with_id (subscription topics) s in put_unless stop (subscription topics r.0) r.1

  unfoldable pub unsubscribe_from : (closing stop : Bool) → List Bytes → Session M → Session M
  unsubscribe_from true stop names s = s
  unsubscribe_from false stop names s =
      let r = with_id (unsubscription names) s in put_unless stop (unsubscription names r.0) r.1

  module _ (api : PersistMethod M) (decimal : ℕ → Bytes) where
    -- A QoS above 0 and no id yet: the packet takes one and is kept under it.
    abbrev pub publish_new : PublishPacket → Session M → Session M
    publish_new p s =
        let r = with_id (λ id. publish (record p { packet_id = id })) s in
        let q = publish (record p { packet_id = r.0 }) in
        put_on q (keep api decimal (send_key decimal r.0) q q r.1)

    abbrev pub publish_capped : PublishPacket → Session M → Session M
    publish_capped p s =
        if p.qos == 0
        then put_on (publish p) s
        else if p.packet_id == 0
        then publish_new p s
        else put_on (publish p) s

    -- One message of `Publish`; a nil message is skipped.
    unfoldable pub publish_one : Option PublishPacket → Session M → Session M
    publish_one none s = s
    publish_one (some p) s = publish_capped (capped p) s

    -- What is left of a message that is given up for the signal: its id and what was kept.
    abbrev pub give_up : Option PublishPacket → Session M → Session M
    give_up p s = record (publish_one p s) { client_send = s.client_send }

    -- What the object of a message holds then, with its QoS and its id.
    abbrev pub object_after : PublishPacket → Session M → PublishPacket
    object_after p s =
        if p.qos == 0
        then p
        else if p.packet_id == 0
        then record p { packet_id = (with_id (λ id. publish (record p { packet_id = id })) s).0 }
        else p

    -- The messages by their objects, each with whether `select` takes the signal, which ends the call.
    unfoldable pub publish_until :
        List (Option ℕ × Bool) → (ℕ → PublishPacket) → Session M → Session M
    publish_until [] f s = s
    publish_until ((none, stop) ∷ ps) f s = publish_until ps f s
    publish_until ((some i, true) ∷ ps) f s = give_up (some (f i)) s
    publish_until ((some i, false) ∷ ps) f s =
        publish_until ps (set_object i (object_after (capped (f i)) s) f)
          (publish_one (some (f i)) s)

    unfoldable pub publish_msgs :
        (closing : Bool) → List (Option ℕ × Bool) → (ℕ → PublishPacket) → Session M → Session M
    publish_msgs true ps f s = s
    publish_msgs false ps f s = publish_until ps f s
