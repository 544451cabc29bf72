-- ===== src/Client/WebSocket.antt =====
-- client_connector.go, `wsConn`: a connection whose bytes come in as messages.
pub mod Stream
use libmqtt.Prelude.{
  ℕ, zero, suc, List, [], ◌∷◌, ◌++◌, length, take, drop, ◌==◌, if◌then◌else◌, Option, none, some,
  ◌⊎◌, inl, inr,
}
use libmqtt.Util.Bytes.{Bytes}

-- What a call of `Read` or `Write` returns: bytes or their number, the end of the input, or an error.
-- A read can also wait for a message that does not come.
pub data ReadEnd (Fault : Type 0) : Type 0 where
  got : Bytes → ReadEnd Fault
  at_end waiting : ReadEnd Fault
  broken : Fault → ReadEnd Fault

-- The errors of the other methods.
pub data SocketError (Fault : Type 0) : Type 0 where
  not_supported : SocketError Fault
  from_socket : Fault → SocketError Fault

-- The buffer, what the socket gives next (messages and errors), and what has been sent.
pub record WsConn (Fault : Type 0) : Type 0 where
  pub read_buf : Bytes
  pub incoming : List (Fault ⊎ Bytes)
  pub sent : List Bytes

module _ {Fault : Type 0} where
  -- `bytes.Buffer.Read`, into a slice of `n` bytes.
  abbrev pub buffer_read : ℕ → Bytes → ReadEnd Fault × Bytes
  buffer_read zero [] = (got [], [])
  buffer_read (suc n) [] = (at_end, [])
  buffer_read n (b ∷ bs) = (got (take n (b ∷ bs)), drop n (b ∷ bs))

  abbrev pub keep :
      WsConn Fault → List (Fault ⊎ Bytes) → ReadEnd Fault × Bytes → ReadEnd Fault × WsConn Fault
  keep c rest (e, buf) = (e, record c { read_buf = buf; incoming = rest })

  abbrev pub read_next : ℕ → WsConn Fault → List (Fault ⊎ Bytes) → ReadEnd Fault × WsConn Fault
  read_next n c [] = (waiting, record c { incoming = [] })
  read_next n c (inl e ∷ rest) = (broken e, record c { incoming = rest })
  read_next n c (inr message ∷ rest) = keep c rest (buffer_read n (c.read_buf ++ message))

  -- A message is taken from the socket first, also where the buffer holds bytes.
  unfoldable pub read : ℕ → WsConn Fault → ReadEnd Fault × WsConn Fault
  read n c = read_next n c c.incoming

  -- `Write`, by the error of the socket: a slice is sent as one message.
  unfoldable pub write : Option Fault → Bytes → WsConn Fault → (Fault ⊎ ℕ) × WsConn Fault
  write (some e) b c = (inl e, c)
  write none b c = (inr (length b), record c { sent = c.sent ++ b ∷ [] })

  unfoldable pub set_deadline : WsConn Fault → SocketError Fault × WsConn Fault
  set_deadline c = (not_supported, c)

  -- Reads in a row, with the sizes of their slices, up to the first that gives no bytes.
  abbrev pub more :
      (WsConn Fault → List (ReadEnd Fault) × WsConn Fault)
      → ReadEnd Fault × WsConn Fault
      → List (ReadEnd Fault) × WsConn Fault
  more rest (got b, c) = let (es, c') = rest c in (got b ∷ es, c')
  more rest (e, c) = (e ∷ [], c)

  unfoldable pub read_all : List ℕ → WsConn Fault → List (ReadEnd Fault) × WsConn Fault
  read_all [] c = ([], c)
  read_all (n ∷ ns) c = more (read_all ns) (read n c)
