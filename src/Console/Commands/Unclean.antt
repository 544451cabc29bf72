-- ===== src/Console/Commands/Unclean.antt =====
-- cmd/libmqtt: the clients that the console has, whatever lines it is given.
use libmqtt.Prelude.{
  ◌/◌, ◌%◌, ◌≡◌, Bool, true, false, List, [], ◌∷◌, none, some, Result, ok, panic, err, stuck, ◌>>=◌,
  inl, inr, Bool-cases,
}
use mathlib.Core.Path.{subst}
use libmqtt.Util.Bytes.{Bytes}
use libmqtt.Client.{World}
use libmqtt.Packets.Types.{ConnPacket}
use libmqtt.Packets.Write.{flags}
use libmqtt.Packets.Write.Flags.{flags-second}
use libmqtt.Client.Settings.Shared.{packet_at}
use libmqtt.Console.Words.{split}
use libmqtt.Console.Types.{Handlers, Console, Done}
use libmqtt.Console.Conn.Clean.{ConsoleIsUnclean, exec_conn-IsUnclean}
use libmqtt.Console.Commands.{
  Parsed, parsed, rejected, Command, to_connect, to_publish, to_subscribe, to_unsubscribe, to_exit,
  to_help, unknown, command_of, publish_args, published, exec_pub, topic_args, subscribed, exec_sub,
  exec_un_sub, is_gentle, exec_dis_conn, or_usage, command, exec_cmd, and_lines, run,
}

-- The client behind the end of a command.
data DoneIsUnclean {w : World} : Result (Done w) → Type 0 where
  with_result : (d : Done w) → ConsoleIsUnclean d.client → DoneIsUnclean (ok d)
  with_panic : DoneIsUnclean panic

result_of : {w : World} (d : Done w) → DoneIsUnclean (ok d) → ConsoleIsUnclean d.client
result_of d (with_result _ k) = k

module _ {w : World} where
  -- The connect packet, and the bit of the clean session in its flags.
  abbrev pub ConsoleAsksClean : Console w → Type 0
  ConsoleAsksClean none = Unit
  ConsoleAsksClean (some (c, o)) =
      (p : ConnPacket) × (packet_at o.conn_packet c.conn_packets ≡ some p)
      × (p.clean_session ≡ false)
      × (flags p / 2 % 2 ≡ 1)

  IsUnclean-AsksClean : (c : Console w) → ConsoleIsUnclean c → ConsoleAsksClean c
  IsUnclean-AsksClean none k = tt
  IsUnclean-AsksClean (some (c, o)) (p, at, (no_wish, no_id)) =
      (p, at, no_wish, flags-second p no_id)

  published-IsUnclean :
      (c : Console w) (r : Parsed _) → ConsoleIsUnclean c → ConsoleIsUnclean (published c r).client
  published-IsUnclean c (parsed ps) k = k
  published-IsUnclean c (rejected b) k = k

  subscribed-IsUnclean :
      (c : Console w) (r : Parsed _) → ConsoleIsUnclean c → ConsoleIsUnclean (subscribed c r).client
  subscribed-IsUnclean c (parsed ps) k = k
  subscribed-IsUnclean c (rejected b) k = k

  exit-IsUnclean :
      (args : List Bytes) (c : Console w)
      → ConsoleIsUnclean c
      → DoneIsUnclean (exec_dis_conn args c)
  unfolding exec_dis_conn is_gentle
  exit-IsUnclean args none k = with_result _ k
  exit-IsUnclean [] (some c) k = with_result _ k
  exit-IsUnclean (x ∷ []) (some c) k = with_panic
  exit-IsUnclean (x ∷ y ∷ args) (some c) k = with_result _ k

module _ {w : World} (h : Handlers w) where
  command-IsUnclean :
      (m : Command) (args : List Bytes) (c : Console w)
      → ConsoleIsUnclean c
      → DoneIsUnclean (command h m args c)
  unfolding exec_pub exec_sub exec_un_sub
  command-IsUnclean to_connect args c k = with_result _ (exec_conn-IsUnclean h args c k)
  command-IsUnclean to_publish args none k = with_result _ k
  command-IsUnclean to_publish args (some c) k =
      with_result _ (published-IsUnclean (some c) (publish_args args) k)
  command-IsUnclean to_subscribe args none k = with_result _ k
  command-IsUnclean to_subscribe args (some c) k =
      with_result _ (subscribed-IsUnclean (some c) (topic_args args) k)
  command-IsUnclean to_unsubscribe args none k = with_result _ k
  command-IsUnclean to_unsubscribe args (some c) k = with_result _ k
  command-IsUnclean to_exit args c k = exit-IsUnclean args c k
  command-IsUnclean to_help args c k = with_result _ k
  command-IsUnclean unknown args c k = with_result _ k

or_usage-IsUnclean :
    {w : World} (d : Done w) → ConsoleIsUnclean d.client → ConsoleIsUnclean (or_usage d).client
or_usage-IsUnclean d k = elim (Bool-cases d.exited) [
  | inl e ↦ rw e k
  | inr e ↦ elim (Bool-cases d.is_ok) [ inl e' ↦ rw (e, e') k | inr e' ↦ rw (e, e') k ]
]

>>=-IsUnclean :
    {w : World} (r : Result (Done w)) (f : Done w → Result (Done w))
    → DoneIsUnclean r
    → ((d : Done w) → ConsoleIsUnclean d.client → DoneIsUnclean (f d))
    → DoneIsUnclean (r >>= f)
>>=-IsUnclean (ok d) f (with_result _ k) g = g d k
>>=-IsUnclean panic f k g = with_panic
>>=-IsUnclean (err e) f k g = elim k [ ]
>>=-IsUnclean stuck f k g = elim k [ ]

and_lines-IsUnclean :
    {w : World} (exited : Bool) (rest : Console w → Result (Done w)) (d : Done w)
    → ConsoleIsUnclean d.client
    → ((c : Console w) → ConsoleIsUnclean c → DoneIsUnclean (rest c))
    → DoneIsUnclean (and_lines exited rest d)
and_lines-IsUnclean true rest d k g = with_result d k
and_lines-IsUnclean false rest d k g =
    >>=-IsUnclean (rest d.client) _ (g d.client k) λ r l. with_result _ l

module _ {w : World} (h : Handlers w) (to_lower : Bytes → Bytes) where
  exec_cmd-IsUnclean :
      (args : List Bytes) (c : Console w)
      → ConsoleIsUnclean c
      → DoneIsUnclean (exec_cmd h to_lower args c)
  unfolding exec_cmd
  exec_cmd-IsUnclean [] c k = with_panic
  exec_cmd-IsUnclean (cmd ∷ args) c k =
      >>=-IsUnclean (command h (command_of (to_lower cmd)) args c) _
        (command-IsUnclean h (command_of (to_lower cmd)) args c k)
        λ d l. with_result (or_usage d) (or_usage-IsUnclean d l)

  run-IsUnclean_lem :
      (lines : List Bytes) (c : Console w)
      → ConsoleIsUnclean c
      → DoneIsUnclean (run h to_lower lines c)
  unfolding run
  run-IsUnclean_lem [] c k = with_result _ k
  run-IsUnclean_lem ([] ∷ lines) c k = run-IsUnclean_lem lines c k
  run-IsUnclean_lem ((b ∷ line) ∷ lines) c k =
      let args = split b' ' (b ∷ line) in
      >>=-IsUnclean (exec_cmd h to_lower args c) _ (exec_cmd-IsUnclean args c k)
        λ d l. and_lines-IsUnclean d.exited (run h to_lower lines) d l (run-IsUnclean_lem lines)

  -- Whatever lines the console is given from its start, the connect packet of a client that it has then
  -- holds no wish for a clean session, also where the user wrote `clean=y`, and no client id: the flags of
  -- its CONNECT ask for a clean session, whatever the user wrote.
  pub run-AsksClean :
      (lines : List Bytes) (d : Done w)
      → run h to_lower lines none ≡ ok d
      → ConsoleAsksClean d.client
  run-AsksClean lines d e =
      IsUnclean-AsksClean d.client
        (result_of d (subst DoneIsUnclean e (run-IsUnclean_lem lines none tt)))
