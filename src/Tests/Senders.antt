-- ===== src/Tests/Senders.antt =====
-- The theorems on the loop that sends at concrete inputs.
use libmqtt.Prelude.{
  suc, ◌≡◌, refl, arith, true, false, List, [], ◌∷◌, ◌++◌, length, none, Option, Error, inr,
}
use libmqtt.Util.Bytes.{Bytes, put_uint16, encode_bytes_with_len, encode_string_with_len}
use libmqtt.Packets.Types.{
  v311, Packet, pub_rel, publish, version, version_of, proto_version, set_version,
}
use libmqtt.Packets.Write.{publish_payload}
use libmqtt.Packets.Writer.{buffer}
use libmqtt.Packets.Frame.V311.{body}
use libmqtt.Persist.Mem.{MemPersist}
use libmqtt.Persist.Method.{mem_method}
use libmqtt.Session.{ack_of}
use libmqtt.Session.Receive.{net_recv_loop}
use libmqtt.Session.Receive.Stream.{arrived, AreSendable}
use libmqtt.Session.Sender.{
  Signal, flush_due, from_client, from_logic, stopped, Outgoing, send_loop,
}
use libmqtt.Session.Sender.Watched.{StaysWatched, send_loop-StaysWatched}
use libmqtt.Session.Sender.Stream.{packets_of, net_recv_loop-send_loop}
use libmqtt.Tests.Sessions.{digit, exactly_once, under_way}

abbrev server : Bytes
server = b's' ∷ []

abbrev sound : Bytes → Option Error
sound written = none

-- A message, an answer of `logic`, and a flush in between.
abbrev woken : List Signal
woken = from_client (publish exactly_once) ∷ flush_due ∷ from_logic (pub_rel (ack_of 9)) ∷ []

abbrev open_connection : Outgoing (MemPersist Packet)
open_connection = record {
  session = under_way;
  writer = buffer [];
  flushed = [];
  soon = false;
  closed = false;
}

send_loop-StaysWatched_example :
    StaysWatched
      (send_loop server sound mem_method digit v311 (woken ++ stopped ∷ []) open_connection)
send_loop-StaysWatched_example =
    send_loop-StaysWatched server sound mem_method digit v311 (woken ++ stopped ∷ [])
      open_connection (inr refl)

woken-AreSendable : AreSendable (packets_of woken)
unfolding packets_of set_version version version_of proto_version body publish_payload put_uint16
    encode_bytes_with_len encode_string_with_len
woken-AreSendable = (
  refl,
  (omega arith, omega arith, omega arith),
  omega arith,
  (refl, omega arith, omega arith, tt),
)

net_recv_loop-send_loop_example :
    let r =
      send_loop server sound mem_method digit v311 (woken ++ flush_due ∷ []) open_connection in
    (r.1 ≡ true)
    × (net_recv_loop (suc (length (packets_of woken))) v311 r.0.flushed
        ≡ arrived (packets_of woken))
net_recv_loop-send_loop_example =
    net_recv_loop-send_loop server sound mem_method digit (λ written. refl) woken open_connection
      refl woken-AreSendable (tt, (tt, (tt, tt)))
