-- ===== src/Session/Logic.antt =====
-- client_conn.go, `logic`: the loop over what it is woken by, and its end.
pub mod Received
pub mod Delivery
use libmqtt.Prelude.{ℕ, List, [], ◌∷◌, ◌++◌, Option, none, some, Error, eof}
use libmqtt.Util.Bytes.{Bytes}
use libmqtt.Packets.Types.{Packet}
use libmqtt.Persist.Method.{PersistMethod}
use libmqtt.Session.{Session, net_msg, handle}

-- A packet of `handleNetRecv`, the end of its channel, or the end of the connection.
pub data Waking : Type 0 where
  incoming : Packet → Waking
  recv_closed stopped : Waking

-- The deferred function: the connection is closed, and the message has the error of that, or `io.EOF`.
abbrev pub close_message : {M : Type 0} → Bytes → Option Error → Session M → Session M
close_message name none s = record s { messages = s.messages ++ net_msg name eof ∷ [] }
close_message name (some e) s = record s { messages = s.messages ++ net_msg name e ∷ [] }

module _ {M : Type 0} (api : PersistMethod M) (decimal : ℕ → Bytes) (name : Bytes)
    (close_error : Option Error) where
  unfoldable pub logic_loop : List Waking → Session M → Session M
  logic_loop [] s = s
  logic_loop (incoming p ∷ xs) s = logic_loop xs (handle api decimal p s)
  logic_loop (recv_closed ∷ xs) s = close_message name close_error s
  logic_loop (stopped ∷ xs) s = close_message name close_error s
