-- ===== src/Session/Receive.antt =====
-- client_conn.go, `handleNetRecv`: packets cut from the bytes of the connection and passed on to `logic`.
pub mod Stream
use libmqtt.Prelude.{
  ℕ, zero, suc, Bool, List, [], ◌∷◌, ◌==◌, if◌then◌else◌, Option, none, some, Error, Result, ok,
  err, panic, stuck,
}
use libmqtt.Util.Bytes.{Bytes}
use libmqtt.Packets.Types.{Packet, ctrl_type, version}
use libmqtt.Decoder.{decode}

-- What one round does: a packet for `logic`, a sign for `keepalive`, the end of the connection with the
-- error of the decoder if there is one, or a crash.
pub data Incoming : Type 0 where
  passed : Packet → Bytes → Incoming
  pinged : Bytes → Incoming
  closed : Option Error → Incoming
  crashed : Incoming

abbrev pub sort_in : ℕ → Result (Packet × Bytes) → Incoming
sort_in v (ok (p, rest)) =
    if version p == v
    then (if ctrl_type p == 13 then pinged rest else passed p rest)
    else closed none
sort_in v (err e) = closed (some e)
sort_in v panic = crashed
sort_in v stuck = crashed

unfoldable pub net_recv : ℕ → Bytes → Incoming
net_recv v input = sort_in v (decode v input)

-- The loop: the packets for `logic`, in order. The fuel is the number of rounds.
unfoldable pub net_recv_loop : ℕ → ℕ → Bytes → List Packet
net_recv_loop zero v input = []
net_recv_loop (suc rounds) v input = elim (net_recv v input) [
  | passed p rest ↦ p ∷ net_recv_loop rounds v rest
  | pinged rest ↦ net_recv_loop rounds v rest
  | closed e ↦ []
  | crashed ↦ []
]
