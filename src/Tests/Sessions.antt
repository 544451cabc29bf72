-- ===== src/Tests/Sessions.antt =====
-- The theorems on sessions at concrete inputs.
use libmqtt.Prelude.{ℕ, ◌≡◌, refl, arith, true, false, [], ◌∷◌, none, some}
use libmqtt.Util.Bytes.{Bytes, put_uint16}
use libmqtt.Util.IdGenerator.{lookup, get_extra, used}
use libmqtt.Packets.Types.{v311, PublishPacket, Packet, publish, pub_rel, pub_comp, pub_recv}
use libmqtt.Packets.Frame.V311.{body}
use libmqtt.Persist.Mem.{MemPersist, new_mem_persist, is_full, load, default_persist_strategy}
use libmqtt.Persist.Method.{mem_method}
use libmqtt.Session.{Session, ack_of, send_key, handle, after_write}
use libmqtt.Session.Quiet.{IsQuiet, handle-IsQuiet}
use libmqtt.Session.Sending.{after_write-stale}
use libmqtt.Session.Client.{publish_msgs}
use libmqtt.Session.Client.Numbers.{packets, published, AreKnown}
use libmqtt.Session.Client.Numbered.{publish_msgs-numbered}
use libmqtt.Util.IdGenerator.Ready.{IsReady}
use libmqtt.Prelude.{Option, Bool, ◌++◌}
use libmqtt.Packets.Types.{version, version_of, proto_version, subscribe, ping_resp}
use libmqtt.Packets.Write.{topics_payload}
use libmqtt.Prelude.{List, ok, arith}
use libmqtt.Util.Bytes.{encode_bytes_with_len, encode_string_with_len}
use libmqtt.Session.Receive.{net_recv_loop}
use libmqtt.Session.Receive.Stream.{sent_bytes, arrived, AreSendable, net_recv_loop-sent_bytes}

-- One digit is enough for the ids here.
abbrev pub digit : ℕ → Bytes
digit n = n ∷ []

abbrev pub exactly_once : PublishPacket
exactly_once = record {
  payload = 1 ∷ [];
  topic_name = b'a' ∷ [];
  props = none;
  packet_id = 5;
  proto_version = 0;
  is_dup = false;
  qos = 2;
  is_retain = false;
}

-- A client with one PUBLISH of QoS 2 under way.
abbrev pub under_way : Session (MemPersist Packet)
unfolding new_mem_persist default_persist_strategy
under_way = record {
  ids = record { next_id = 5; used_ids = (5, publish exactly_once) ∷ [] };
  kept = new_mem_persist none;
  logic_send = [];
  client_send = [];
  received = [];
  messages = [];
}

pub under_way-received : under_way.received ≡ []
unfolding under_way
under_way-received = refl

handle-IsQuiet_example :
    IsQuiet 5 under_way (handle mem_method digit (pub_recv (ack_of 5)) under_way)
handle-IsQuiet_example = handle-IsQuiet mem_method digit 5 under_way (pub_recv (ack_of 5))

after_write-stale_example :
    (get_extra 5
        (after_write mem_method digit
          (pub_rel (ack_of 5))
          (handle mem_method digit (pub_comp (ack_of 5)) under_way)).0.ids
      ≡ none)
    × (load
          (send_key digit 5)
          (after_write mem_method digit
            (pub_rel (ack_of 5))
            (handle mem_method digit (pub_comp (ack_of 5)) under_way)).0.kept
        ≡ (some (pub_rel (ack_of 5)), true))
unfolding get_extra lookup is_full under_way new_mem_persist default_persist_strategy
after_write-stale_example = after_write-stale digit (ack_of 5) exactly_once under_way refl refl refl

-- A message without an id, of QoS 1.
abbrev at_least_once : PublishPacket
at_least_once = record exactly_once { packet_id = 0; qos = 1 }

-- A SUBSCRIBE and the answer to a ping.
abbrev two_packets : List Packet
two_packets =
    subscribe (record {
      proto_version = 0;
      packet_id = 9;
      topics = record { name = b'a' ∷ b'/' ∷ b'#' ∷ []; qos = 1 } ∷ [];
      props = none;
    })
    ∷ ping_resp 4
    ∷ []

two_packets-AreSendable : AreSendable two_packets
unfolding version version_of proto_version body topics_payload encode_string_with_len
    encode_bytes_with_len put_uint16
two_packets-AreSendable =
    (refl, (omega arith, (omega arith, tt)), omega arith, (refl, tt, omega arith, tt))

net_recv_loop-sent_bytes_example :
    (bs : Bytes) × (sent_bytes two_packets ≡ ok bs)
    × (net_recv_loop 3 v311 bs ≡ arrived two_packets)
net_recv_loop-sent_bytes_example = net_recv_loop-sent_bytes two_packets two_packets-AreSendable

-- The next id is 6, and only 5 is in use.
under_way-IsReady : IsReady 5 3 under_way.ids
unfolding under_way used get_extra lookup
under_way-IsReady = record {
  at = refl;
  bounded = omega arith;
  spare = λ j above below. ground (arith, above);
}

-- A message of QoS 1, the same again, and another where the client is closed.
publish_msgs-numbered_example :
    let ps : List (Option ℕ × Bool) = (some 0, false) ∷ (some 0, false) ∷ (some 1, true) ∷ [] in
    let t = publish_msgs mem_method digit false ps (λ i. at_least_once) under_way in
    let qs = published false 5 ps (λ i. at_least_once) in
    (t.client_send ≡ under_way.client_send ++ packets qs) × AreKnown qs t.ids
publish_msgs-numbered_example =
    publish_msgs-numbered mem_method digit false
      ((some 0, false) ∷ (some 0, false) ∷ (some 1, true) ∷ []) (λ i. at_least_once) 5 under_way
      under_way-IsReady
