-- ===== src/Console/Commands/Publish.antt =====
-- cmd/libmqtt/pub.go: messages, written the way that `pub` reads them.
use libmqtt.Prelude.{
  ℕ, ◌+◌, ◌<◌, ◌≡◌, refl, arith, true, false, List, [], ◌∷◌, ◌==◌, some, none, ok, pos, All,
  All-append, bytes_eq,
}
use libmqtt.Util.Bytes.{Bytes}
use libmqtt.Packets.Types.{PublishPacket}
use libmqtt.Client.{World, AsyncClient, ConnectOptions}
use libmqtt.Bindings.Options.{to_uint}
use libmqtt.Console.Words.{split, joined, digits, atoi, IsWord, split-joined}
use libmqtt.Console.Types.{Handlers, publishing}
use libmqtt.Console.Commands.{
  publish_arg, publish_args, exec_pub, finish, word_pub, command_of, exec_cmd, parsed,
}

-- A message: its topic, QoS and payload.
pub record Message : Type 0 where
  pub topic : Bytes
  pub qos : ℕ
  pub payload : Bytes

-- `topic,qos,payload`.
abbrev pub arg_of : Message → Bytes
arg_of m = joined b',' m.topic (((b'0' + m.qos) ∷ []) ∷ m.payload ∷ [])

abbrev pub args_of : List Message → List Bytes
args_of [] = []
args_of (m ∷ ms) = arg_of m ∷ args_of ms

-- The line of a `pub` command.
abbrev pub line_of : List Message → Bytes
line_of ms = joined b' ' word_pub (args_of ms)

abbrev pub packets_of : List Message → List PublishPacket
packets_of [] = []
packets_of (m ∷ ms) =
    record {
      payload = m.payload;
      topic_name = m.topic;
      props = none;
      packet_id = 0;
      proto_version = 0;
      is_dup = false;
      qos = m.qos;
      is_retain = false;
    }
    ∷ packets_of ms

-- The QoS is one digit, and neither text has a comma or a space.
pub record IsTyped (m : Message) : Type 0 where
  pub qos : m.qos < 10
  pub topic_comma : IsWord b',' m.topic
  pub topic_space : IsWord b' ' m.topic
  pub payload_comma : IsWord b',' m.payload
  pub payload_space : IsWord b' ' m.payload

atoi_digit : (q : ℕ) → q < 10 → atoi ((b'0' + q) ∷ []) ≡ some (pos q)
unfolding atoi digits
atoi_digit q h = ground arith

to_uint_digit : (q : ℕ) → q < 10 → to_uint 8 (pos q) ≡ q
to_uint_digit q h = omega arith

split-arg_of :
    (m : Message)
    → IsTyped m
    → split b',' (arg_of m) ≡ m.topic ∷ ((b'0' + m.qos) ∷ []) ∷ m.payload ∷ []
split-arg_of m t =
    let digit : ((b'0' + m.qos) == b',') ≡ false = ground arith in
    split-joined b',' m.topic _ t.topic_comma ((digit, tt), (t.payload_comma, tt))

publish_args-args_of :
    (ms : List Message) → All IsTyped ms → publish_args (args_of ms) ≡ parsed (packets_of ms)
unfolding publish_args publish_arg
publish_args-args_of [] h = refl
publish_args-args_of (m ∷ ms) (t, ts) =
    rw
      (
        split-arg_of m t,
        atoi_digit m.qos t.qos,
        publish_args-args_of ms ts,
        to_uint_digit m.qos t.qos,
      )
      refl

arg_of-IsWord : (m : Message) → IsTyped m → IsWord b' ' (arg_of m)
unfolding joined
arg_of-IsWord m t =
    let digit : ((b'0' + m.qos) == b' ') ≡ false = ground arith in
    All-append _ m.topic _ t.topic_space (refl, (digit, (refl, t.payload_space)))

args_of-AreWords : (ms : List Message) → All IsTyped ms → All (IsWord b' ') (args_of ms)
args_of-AreWords [] h = tt
args_of-AreWords (m ∷ ms) (t, ts) = (arg_of-IsWord m t, args_of-AreWords ms ts)

-- A line that gives messages to `pub` leads to one call of `Publish` with them in order, as packets with
-- their topics, QoS and payloads and nothing else, if there is a client, each QoS is a digit, and no topic or payload has a comma or a space.
-- Lower-case letters stay as they are in `strings.ToLower`.
pub exec_cmd-line_of :
    {w : World} (h : Handlers w) (to_lower : Bytes → Bytes) (ms : List Message)
    (c : AsyncClient w × ConnectOptions w)
    → to_lower word_pub ≡ word_pub
    → All IsTyped ms
    → exec_cmd h to_lower (split b' ' (line_of ms)) (some c)
      ≡ ok (finish (some c) true (publishing (packets_of ms) ∷ []))
unfolding exec_cmd exec_pub command_of bytes_eq
exec_cmd-line_of h to_lower ms c e t = rw (
  split-joined b' ' word_pub (args_of ms) (refl, (refl, (refl, tt))) (args_of-AreWords ms t),
  e,
  publish_args-args_of ms t,
)
