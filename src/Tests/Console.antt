-- ===== src/Tests/Console.antt =====
-- The theorems on the console at concrete inputs.
use libmqtt.Prelude.{
  ◌+◌, ◌≡◌, refl, arith, true, false, ◌&&◌, List, [], ◌∷◌, leb, if◌then◌else◌, none, some, Result,
  ok, bytes_eq,
}
use libmqtt.Util.Bytes.{Bytes}
use libmqtt.Client.{default_client, default_connect_options}
use libmqtt.Client.Options
use libmqtt.Client.Settings
use libmqtt.Client.Settings.{setter, apply_all}
use libmqtt.Console.Words.{split}
use libmqtt.Console.Types.{Handlers, publishing, Console, Done}
use libmqtt.Console.Conn.{set_wish, wishes_of, settings_of, all_settings, new_client, exec_conn}
use libmqtt.Console.Commands.{command_of, finish, exec_cmd, run}
use libmqtt.Console.Commands.Unclean.{ConsoleAsksClean, run-AsksClean}
use libmqtt.Console.Commands.Publish.{Message, line_of, packets_of, exec_cmd-line_of}
use libmqtt.Tests.Clients.{plain}

abbrev quiet : Handlers plain
quiet = record {
  conn_handler = tt;
  pub_handler = tt;
  sub_handler = tt;
  unsub_handler = tt;
  net_handler = tt;
}

-- `strings.ToLower` of a text in ASCII.
abbrev lower : Bytes → Bytes
lower [] = []
lower (b ∷ bs) = (if leb b'A' b && leb b b'Z' then b + 32 else b) ∷ lower bs

abbrev conn_line : Bytes
conn_line =
    b'C' ∷ b' ' ∷ b'h' ∷ b':' ∷ b'1' ∷ b' ' ∷ b'c' ∷ b'l' ∷ b'e' ∷ b'a' ∷ b'n' ∷ b'=' ∷ b'y' ∷ []

abbrev done_or_start : Result (Done plain) → Done plain
done_or_start (ok d) = d
done_or_start _ = finish none false []

abbrev behind_conn : Done plain
behind_conn = done_or_start (run quiet lower (conn_line ∷ []) none)

run_conn : run quiet lower (conn_line ∷ []) none ≡ ok behind_conn
unfolding run exec_cmd command_of exec_conn split set_wish wishes_of settings_of all_settings
    new_client bytes_eq apply_all setter Options.with_clean_session Options.with_server
    Options.with_pub_handle_func Options.with_conn_handle_func Options.with_unsub_handle_func
    Options.with_net_handle_func Options.with_sub_handle_func Settings.new_client
run_conn = refl

run-AsksClean_example : ConsoleAsksClean behind_conn.client
run-AsksClean_example = run-AsksClean quiet lower (conn_line ∷ []) behind_conn run_conn

abbrev a_client : Console plain
a_client = some (default_client plain, default_connect_options plain)

abbrev two_messages : List Message
two_messages =
    record { topic = b'a' ∷ b'/' ∷ b'b' ∷ []; qos = 2; payload = b'h' ∷ b'i' ∷ [] }
    ∷ record { topic = b'c' ∷ []; qos = 0; payload = [] }
    ∷ []

exec_cmd-line_of_example :
    exec_cmd quiet lower (split b' ' (line_of two_messages)) a_client
    ≡ ok (finish a_client true (publishing (packets_of two_messages) ∷ []))
exec_cmd-line_of_example =
    exec_cmd-line_of quiet lower two_messages (default_client plain, default_connect_options plain)
      refl
      (
        record {
          qos = omega arith;
          topic_comma = (refl, (refl, (refl, tt)));
          topic_space = (refl, (refl, (refl, tt)));
          payload_comma = (refl, (refl, tt));
          payload_space = (refl, (refl, tt));
        },
        (
          record {
            qos = omega arith;
            topic_comma = (refl, tt);
            topic_space = (refl, tt);
            payload_comma = tt;
            payload_space = tt;
          },
          tt,
        ),
      )
