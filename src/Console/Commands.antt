-- ===== src/Console/Commands.antt =====
-- cmd/libmqtt: pub.go, sub.go, `execDisConn` of conn.go, and `execCmd` and `main` of libmqtt_cmd.go.
pub mod Unclean
pub mod Publish
use libmqtt.Prelude.{
  ℕ, Bool, true, false, ◌&&◌, ◌||◌, not, List, [], ◌∷◌, ◌++◌, length, ltb, ◌==◌, if◌then◌else◌,
  Option, none, some, Result, ok, panic, err, stuck, ◌>>=◌, ℤ, bytes_eq,
}
use libmqtt.Util.Bytes.{Bytes}
use libmqtt.Packets.Types.{Topic, PublishPacket}
use libmqtt.Client.{World}
use libmqtt.Bindings.Options.{to_uint}
use libmqtt.Console.Words.{split, atoi}
use libmqtt.Console.Types.{
  Handlers, connect_first, conn_usage, pub_usage, sub_usage, unsub_usage, exit_usage, Text, say,
  destroying, publishing, handling, subscribing, unsubscribing, Action, Console, Done,
}
use libmqtt.Console.Conn.{exec_conn}

-- The arguments of a command, read; or its result `ok` behind the usage, if one cannot be read.
pub data Parsed (A : Type 0) : Type 0 where
  parsed : A → Parsed A
  rejected : Bool → Parsed A

abbrev pub and_parsed : {A B : Type 0} → Parsed A → (A → Parsed B) → Parsed B
and_parsed (parsed a) f = f a
and_parsed (rejected b) f = rejected b

abbrev pub message : Bytes → ℤ → Bytes → PublishPacket
message topic qos payload = record {
  payload = payload;
  topic_name = topic;
  props = none;
  packet_id = 0;
  proto_version = 0;
  is_dup = false;
  qos = to_uint 8 qos;
  is_retain = false;
}

abbrev pub with_qos : {A : Type 0} → Bool → Option ℤ → (ℤ → A) → Parsed A
with_qos result none f = rejected result
with_qos result (some qos) f = parsed (f qos)

unfoldable pub publish_arg : List Bytes → Parsed PublishPacket
publish_arg (topic ∷ qos ∷ payload ∷ []) = with_qos false (atoi qos) (λ q. message topic q payload)
publish_arg _ = rejected true

-- The loop over the arguments of `pub`, which ends at the first that cannot be read.
unfoldable pub publish_args : List Bytes → Parsed (List PublishPacket)
publish_args [] = parsed []
publish_args (v ∷ vs) =
    and_parsed (publish_arg (split b',' v)) λ p. and_parsed (publish_args vs) λ ps. parsed (p ∷ ps)

unfoldable pub topic_arg : List Bytes → Parsed Topic
topic_arg (name ∷ qos ∷ []) =
    with_qos true (atoi qos) (λ q. record { name = name; qos = to_uint 8 q })
topic_arg _ = rejected true

unfoldable pub topic_args : List Bytes → Parsed (List Topic)
topic_args [] = parsed []
topic_args (v ∷ vs) =
    and_parsed (topic_arg (split b',' v)) λ t. and_parsed (topic_args vs) λ ts. parsed (t ∷ ts)

abbrev pub word_force : Bytes
word_force = b'f' ∷ b'o' ∷ b'r' ∷ b'c' ∷ b'e' ∷ []

-- `len(args) > 0 && args[1] != "force"`.
unfoldable pub is_gentle : List Bytes → Result Bool
is_gentle [] = ok false
is_gentle (x ∷ []) = panic
is_gentle (x ∷ y ∷ args) = ok (not (bytes_eq y word_force))

module _ {w : World} where
  abbrev pub finish : Console w → Bool → List (Action w) → Done w
  finish c is_ok actions = record { client = c; actions = actions; is_ok = is_ok; exited = false }

  abbrev pub published : Console w → Parsed (List PublishPacket) → Done w
  published c (parsed ps) = finish c true (publishing ps ∷ [])
  published c (rejected b) = finish c b (say pub_usage ∷ [])

  unfoldable pub exec_pub : List Bytes → Console w → Done w
  exec_pub args none = finish none true (say connect_first ∷ [])
  exec_pub args (some c) = published (some c) (publish_args args)

  abbrev pub handle_each : List Topic → List (Action w)
  handle_each [] = []
  handle_each (t ∷ ts) = handling t.name ∷ handle_each ts

  abbrev pub subscribed : Console w → Parsed (List Topic) → Done w
  subscribed c (parsed ts) = finish c true (handle_each ts ++ subscribing ts ∷ [])
  subscribed c (rejected b) = finish c b (say sub_usage ∷ [])

  unfoldable pub exec_sub : List Bytes → Console w → Done w
  exec_sub args none = finish none true (say connect_first ∷ [])
  exec_sub args (some c) = subscribed (some c) (topic_args args)

  unfoldable pub exec_un_sub : List Bytes → Console w → Done w
  exec_un_sub args none = finish none true (say connect_first ∷ [])
  exec_un_sub args (some c) = finish (some c) true (unsubscribing args ∷ [])

  abbrev pub exit_with : Console w → List (Action w) → Done w
  exit_with c actions = record { client = c; actions = actions; is_ok = true; exited = true }

  unfoldable pub exec_dis_conn : List Bytes → Console w → Result (Done w)
  exec_dis_conn args none = ok (exit_with none [])
  exec_dis_conn args (some c) = do
    gentle ← is_gentle args
    ok (exit_with (some c) (destroying (not gentle) ∷ []))

  abbrev pub usage : List (Action w)
  usage = say conn_usage ∷ say pub_usage ∷ say sub_usage ∷ say unsub_usage ∷ say exit_usage ∷ []

  -- `if !ok { usage() }`.
  abbrev pub or_usage : Done w → Done w
  or_usage d =
      if d.exited then d else if d.is_ok then d else record d { actions = d.actions ++ usage }

-- The switch on the command.
pub data Command : Type 0 where
  to_connect to_publish to_subscribe to_unsubscribe to_exit to_help unknown : Command

abbrev pub word_c : Bytes
word_c = b'c' ∷ []

abbrev pub word_conn : Bytes
word_conn = b'c' ∷ b'o' ∷ b'n' ∷ b'n' ∷ []

abbrev pub word_p : Bytes
word_p = b'p' ∷ []

abbrev pub word_pub : Bytes
word_pub = b'p' ∷ b'u' ∷ b'b' ∷ []

abbrev pub word_s : Bytes
word_s = b's' ∷ []

abbrev pub word_sub : Bytes
word_sub = b's' ∷ b'u' ∷ b'b' ∷ []

abbrev pub word_u : Bytes
word_u = b'u' ∷ []

abbrev pub word_unsub : Bytes
word_unsub = b'u' ∷ b'n' ∷ b's' ∷ b'u' ∷ b'b' ∷ []

abbrev pub word_q : Bytes
word_q = b'q' ∷ []

abbrev pub word_exit : Bytes
word_exit = b'e' ∷ b'x' ∷ b'i' ∷ b't' ∷ []

abbrev pub word_question : Bytes
word_question = b'?' ∷ []

abbrev pub word_h : Bytes
word_h = b'h' ∷ []

abbrev pub word_help : Bytes
word_help = b'h' ∷ b'e' ∷ b'l' ∷ b'p' ∷ []

unfoldable pub command_of : Bytes → Command
command_of cmd =
    if bytes_eq cmd word_c || bytes_eq cmd word_conn
    then to_connect
    else if bytes_eq cmd word_p || bytes_eq cmd word_pub
    then to_publish
    else if bytes_eq cmd word_s || bytes_eq cmd word_sub
    then to_subscribe
    else if bytes_eq cmd word_u || bytes_eq cmd word_unsub
    then to_unsubscribe
    else if bytes_eq cmd word_q || bytes_eq cmd word_exit
    then to_exit
    else if bytes_eq cmd word_question || bytes_eq cmd word_h || bytes_eq cmd word_help
    then to_help
    else unknown

module _ {w : World} (h : Handlers w) where
  abbrev pub command : Command → List Bytes → Console w → Result (Done w)
  command to_connect args c = ok (exec_conn h args c)
  command to_publish args c = ok (exec_pub args c)
  command to_subscribe args c = ok (exec_sub args c)
  command to_unsubscribe args c = ok (exec_un_sub args c)
  command to_exit args c = exec_dis_conn args c
  command to_help args c = ok (finish c true usage)
  command unknown args c = ok (finish c false [])

-- The lines behind one, unless the program has ended.
abbrev pub and_lines : {w : World} → Bool → (Console w → Result (Done w)) → Done w → Result (Done w)
and_lines true rest d = ok d
and_lines false rest d = do r ← rest d.client; ok (record r { actions = d.actions ++ r.actions })

-- `strings.ToLower` is a parameter, since it changes letters outside of ASCII too.
module _ {w : World} (h : Handlers w) (to_lower : Bytes → Bytes) where
  unfoldable pub exec_cmd : List Bytes → Console w → Result (Done w)
  exec_cmd [] c = panic
  exec_cmd (cmd ∷ args) c = do d ← command h (command_of (to_lower cmd)) args c; ok (or_usage d)

  -- The loop of `main` over the lines of the input. An empty line is passed over.
  unfoldable pub run : List Bytes → Console w → Result (Done w)
  run [] c = ok (finish c true [])
  run ([] ∷ lines) c = run lines c
  run ((b ∷ line) ∷ lines) c = do
    d ← exec_cmd (split b' ' (b ∷ line)) c
    and_lines d.exited (run lines) d
