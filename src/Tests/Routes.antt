-- ===== src/Tests/Routes.antt =====
-- The theorems on routers and on the functions for C at concrete inputs.
use libmqtt.Prelude.{ℕ, ◌+◌, ◌≡◌, List, [], ◌∷◌, Option, none, some, pos, true}
use libmqtt.Util.Bytes.{Bytes}
use libmqtt.Packets.Types.{PublishPacket}
use libmqtt.Packets.Types.{Packet, publish, ping_resp}
use libmqtt.Client.Settings
use libmqtt.Bindings.{no_bindings}
use libmqtt.Bindings.Calls
use libmqtt.Bindings.Calls.{Methods}
use libmqtt.Bindings.Unset.{Call, creating, adding, setting_up, run, run-nothing}
use libmqtt.Tests.Sessions.{exactly_once}
use libmqtt.Tests.Clients.{plain}

-- Handlers are numbers; the second one for the topic counts.
abbrev registered : List (Bytes × Option ℕ)
registered =
    (b'a' ∷ [], some 1) ∷ (b'b' ∷ [], some 2) ∷ (b'a' ∷ [], some 3) ∷ (b'b' ∷ [], none) ∷ []

abbrev to_b : PublishPacket
to_b = record exactly_once { topic_name = b'b' ∷ [] }

-- Two messages with the answer to a ping in between.
abbrev from_server : List Packet
from_server = publish exactly_once ∷ ping_resp 4 ∷ publish to_b ∷ []

-- The state is how often a method was called.
abbrev counted : Methods plain ℕ
counted = record {
  subscribe = λ c topics n. n + 1;
  publish = λ c messages n. n + 1;
  unsubscribe = λ c names n. n + 1;
  wait = λ c n. n + 1;
  destroy = λ c force n. n + 1;
  handle = λ c topic f n. n + 1;
  connect = λ c f n. n + 1;
  handle_pub = λ c f n. n + 1;
  handle_sub = λ c f n. n + 1;
  handle_unsub = λ c f n. n + 1;
  handle_net = λ c f n. n + 1;
  handle_persist = λ c f n. n + 1;
}

abbrev calls : List (Call plain)
calls = creating ∷ adding (pos 1) (Settings.auto_reconnect true) ∷ setting_up (pos 1) ∷ []

run-nothing_example :
    let b = run calls no_bindings in
    (Calls.subscribe counted b (pos 1) (b'a' ∷ []) (pos 1) 0 ≡ 0)
    × (Calls.publish counted b (pos 1) (b'a' ∷ []) (pos 1) (b'x' ∷ []) 0 ≡ 0)
    × (Calls.unsubscribe counted b (pos 1) (b'a' ∷ []) 0 ≡ 0)
    × (Calls.wait counted b (pos 1) 0 ≡ 0)
    × (Calls.destroy counted b (pos 1) true 0 ≡ 0)
    × (Calls.connect counted b (pos 1) true 0 ≡ 0)
    × (Calls.handle counted b (pos 1) (b'a' ∷ []) true 0 ≡ 0)
    × (Calls.set_pub_handler counted b (pos 1) true 0 ≡ 0)
    × (Calls.set_sub_handler counted b (pos 1) true 0 ≡ 0)
    × (Calls.set_unsub_handler counted b (pos 1) true 0 ≡ 0)
    × (Calls.set_net_handler counted b (pos 1) true 0 ≡ 0)
    × (Calls.set_persist_handler counted b (pos 1) true 0 ≡ 0)
run-nothing_example = run-nothing counted calls (pos 1) (b'a' ∷ []) (b'x' ∷ []) (pos 1) true true 0
