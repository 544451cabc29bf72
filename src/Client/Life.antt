-- ===== src/Client/Life.antt =====
-- client_async.go, `Disconnect` and `Destroy`: how connections are brought to their end.
pub mod Told
use libmqtt.Prelude.{List, [], ◌∷◌, ◌++◌, Bool, true, false, if◌then◌else◌, Option, none, some}
use libmqtt.Util.Bytes.{Bytes}
use libmqtt.Util.Names.{ByName, named, with_name}
use libmqtt.Packets.Types.{DisconnPacket, Packet, disconn}

-- A connection that has not stopped: `parentExit`, and what has been sent on `logicSendC`.
pub record Link : Type 0 where
  pub parent_exit : Bool
  pub logic_send : List Packet

-- `connectedServers`, and whether the client is closing.
pub record Life : Type 0 where
  pub links : ByName Link
  pub closing : Bool

abbrev pub or_empty_packet : Option DisconnPacket → DisconnPacket
or_empty_packet none = record { proto_version = 0; code = 0; props = none }
or_empty_packet (some p) = p

abbrev pub told : DisconnPacket → Link → Link
told p l = record l { parent_exit = true; logic_send = l.logic_send ++ disconn p ∷ [] }

abbrev pub keys_of : ByName Link → List Bytes
keys_of [] = []
keys_of ((k, l) ∷ t) = k ∷ keys_of t

-- Whether the connection of a server ends before the client does, which `Disconnect` waits for.
module _ (ends_first : Bytes → Bool) where
  abbrev pub disconnected : Bytes → DisconnPacket → Option Link → Life → Life × Bool
  disconnected server p none a = (a, false)
  disconnected server p (some l) a =
      (record a { links = with_name server (told p l) a.links }, ends_first server)

  unfoldable pub disconnect : Bytes → Option DisconnPacket → Life → Life × Bool
  disconnect server p a = disconnected server (or_empty_packet p) (named server a.links) a

  unfoldable pub disconnect_all : List Bytes → Life → Life
  disconnect_all [] a = a
  disconnect_all (server ∷ servers) a = disconnect_all servers (disconnect server none a).0

  unfoldable pub destroy : Bool → Life → Life
  destroy force a =
      if force
      then record a { closing = true }
      else record (disconnect_all (keys_of a.links) a) { closing = true }
