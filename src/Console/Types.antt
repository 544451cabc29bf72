-- ===== src/Console/Types.antt =====
-- cmd/libmqtt: what the console keeps, and what its commands do. A call of the client is a value: what it
-- does there, and that `Publish` waits while the channel is full, is not part of the console.
use libmqtt.Prelude.{Bool, List, Option}
use libmqtt.Util.Bytes.{Bytes}
use libmqtt.Packets.Types.{Topic, PublishPacket}
use libmqtt.Client.{World, ConnectOptions, AsyncClient}
use libmqtt.Client.Options.{SetupError}

-- The handlers of util.go, which print what they are given.
pub record Handlers (w : World) : Type 0 where
  pub conn_handler : w.Handler
  pub pub_handler : w.Handler
  pub sub_handler : w.Handler
  pub unsub_handler : w.Handler
  pub net_handler : w.Handler

-- What is printed.
pub data Text (w : World) : Type 0 where
  connect_first invalid_qos conn_usage pub_usage sub_usage unsub_usage exit_usage : Text w
  bad_option : Bytes → Text w
  setup_failed : SetupError w → Text w

-- What a command prints, and its calls of the client's methods. Each topic is handled by `topicHandler`.
pub data Action (w : World) : Type 0 where
  say : Text w → Action w
  destroying : Bool → Action w
  publishing : List PublishPacket → Action w
  handling : Bytes → Action w
  subscribing : List Topic → Action w
  unsubscribing : List Bytes → Action w

-- The variable `client`.
abbrev pub Console : World → Type 0
Console w = Option (AsyncClient w × ConnectOptions w)

-- The end of a command: the variable after it, what it did, the result `ok`, and whether the program ends.
pub record Done (w : World) : Type 0 where
  pub client : Console w
  pub actions : List (Action w)
  pub is_ok : Bool
  pub exited : Bool
