-- ===== src/Tests/Dialing.antt =====
-- The theorems on connectors at concrete inputs.
use libmqtt.Prelude.{refl, ℕ, List, ◌≡◌, arith, [], ◌∷◌, ◌++◌, none, some, inl, inr, true, pos}
use libmqtt.Util.Bytes.{Bytes}
use libmqtt.Client.Dial.{Network, Meeting, tcp_connect}
use libmqtt.Client.Dial.Ends.{IsTidy, tcp_connect-IsTidy}
use libmqtt.Client.Connect.Table.{
  Event, stores, ends, returns, step, steps, at_start, EntryIsLive, steps-EntryIsLive,
}
use libmqtt.Client.WebSocket.{got, waiting, WsConn, read_all}
use libmqtt.Client.WebSocket.Stream.{ahead, bytes_got, read_all-ahead, read_all-waiting}

-- A configuration is its server name.
abbrev named_only : Network
named_only = record {
  Fault = ℕ;
  TlsConfig = Bytes;
  server_name = λ name. name;
  with_server_name = λ name config. name;
}

-- The handshake fails, but the timer is faster.
abbrev too_slow : Meeting named_only
too_slow = record { dial_error = none; handshake_error = λ config. some 7; timer_first = true }

abbrev address : Bytes
address = b'h' ∷ b':' ∷ b'1' ∷ []

tcp_connect-IsTidy_example :
    IsTidy address (some []) (tcp_connect too_slow address (pos 5) (pos 3) (some []))
    × (tcp_connect too_slow address (pos 0) (pos 3) (some [])
        ≡ tcp_connect too_slow address (pos 0) (pos 0) (some []))
tcp_connect-IsTidy_example = tcp_connect-IsTidy too_slow address (pos 5) (pos 3) (some [])

-- Two messages and an error between them.
abbrev socket : WsConn ℕ
socket = record {
  read_buf = 1 ∷ [];
  incoming = inr (2 ∷ 3 ∷ []) ∷ inl 9 ∷ inr (4 ∷ []) ∷ [];
  sent = [];
}

read_all-ahead_example :
    bytes_got (read_all (2 ∷ 5 ∷ []) socket).0 ++ ahead (read_all (2 ∷ 5 ∷ []) socket).1
    ≡ ahead socket
read_all-ahead_example = read_all-ahead (2 ∷ 5 ∷ []) socket

read_all-waiting_example :
    let c : WsConn ℕ = record { read_buf = []; incoming = inr (1 ∷ 2 ∷ 3 ∷ []) ∷ []; sent = [] } in
    ((read_all (2 ∷ 8 ∷ []) c).0 ≡ got (1 ∷ 2 ∷ []) ∷ waiting ∷ [])
    × ((read_all (2 ∷ 8 ∷ []) c).1.read_buf ≡ 3 ∷ [])
read_all-waiting_example = read_all-waiting 2 8 (1 ∷ 2 ∷ 3 ∷ []) (omega arith)

-- The second attempt stores its connection before the first has returned.
abbrev overlapping : List Event
overlapping = stores 0 ∷ ends 0 true ∷ stores 1 ∷ returns 0 ∷ []

steps-EntryIsLive_example :
    EntryIsLive (steps overlapping at_start).entry (steps overlapping at_start).phase_of
steps-EntryIsLive_example = steps-EntryIsLive overlapping

-- Then it is up without an entry.
overlapping_entry : (steps overlapping at_start).entry ≡ none
unfolding steps step
overlapping_entry = refl
