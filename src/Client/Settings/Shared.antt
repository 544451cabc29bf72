-- ===== src/Client/Settings/Shared.antt =====
-- client_conn_options.go, `ConnectServer`: its options and those of the client lead to one connect packet.
use libmqtt.Prelude.{ℕ, zero, suc, ◌≡◌, ap, arith, List, [], ◌∷◌, Option, none, some}
use libmqtt.Util.Bytes.{Bytes}
use libmqtt.Packets.Types.{ConnPacket}
use libmqtt.Client.{World, ConnectOptions, AsyncClient, clone_options}
use libmqtt.Client.Options.{modify, with_identity}
use libmqtt.Client.Settings.{identity, setter, apply_all, connect_server}

-- The packet behind a pointer.
unfoldable pub packet_at : ℕ → List ConnPacket → Option ConnPacket
packet_at i [] = none
packet_at zero (p ∷ ps) = some p
packet_at (suc i) (p ∷ ps) = packet_at i ps

pub packet_at-modify :
    (f : ConnPacket → ConnPacket) (i : ℕ) (ps : List ConnPacket) (p : ConnPacket)
    → packet_at i ps ≡ some p
    → packet_at i (modify f i ps) ≡ some (f p)
unfolding packet_at modify
packet_at-modify f i [] p h = ground arith
packet_at-modify f zero (q ∷ ps) p h = ground (arith, ap f)
packet_at-modify f (suc i) (q ∷ ps) p h = packet_at-modify f i ps p h

-- A user name and password that are given for one connection are put in the connect packet that the
-- client's own options lead to.
pub connect_server-identity :
    {w : World} (username password : Bytes) (c : AsyncClient w) (o : ConnectOptions w)
    (p : ConnPacket)
    → packet_at o.conn_packet c.conn_packets ≡ some p
    → packet_at o.conn_packet
        (connect_server (identity username password ∷ []) c o).client.conn_packets
      ≡ some (record p { username = username; password = password })
unfolding connect_server apply_all setter with_identity clone_options
connect_server-identity username password c o p h =
    packet_at-modify (λ q. record q { username = username; password = password }) o.conn_packet
      c.conn_packets p h
