-- ===== src/Session/Sender.antt =====
-- client_conn.go, `handleSend`: the loop over everything that makes it act.
pub mod Watched
pub mod Stream
use libmqtt.Prelude.{
  ℕ, Bool, true, false, List, [], ◌∷◌, ◌++◌, ◌==◌, if◌then◌else◌, Option, none, some, Error, Result,
  ok, err, panic, stuck,
}
use libmqtt.Util.Bytes.{Bytes}
use libmqtt.Packets.Types.{Packet, publish, disconn, set_version}
use libmqtt.Packets.Writer.{Writer}
use libmqtt.Packets.Write.{write_to}
use libmqtt.Persist.Method.{PersistMethod}
use libmqtt.Session.{Session, pub_msg, net_msg, after_write}

-- What one round of the loop is woken by.
pub data Signal : Type 0 where
  stopped flush_due logic_closed : Signal
  from_client from_logic : Packet → Signal

-- The session, the writer over the connection, what it had taken at the last flush, whether the timer
-- of the next one is short, and whether the connection has been closed.
pub record Outgoing (M : Type 0) : Type 0 where
  pub session : Session M
  pub writer : Writer
  pub flushed : Bytes
  pub soon : Bool
  pub closed : Bool

-- `notifyNetMsg` for the server `name`.
abbrev pub notify_net : {M : Type 0} → Bytes → Error → Outgoing M → Outgoing M
notify_net name e o = record o {
  session = record o.session { messages = o.session.messages ++ net_msg name e ∷ [] };
}

module _ {M : Type 0} where
  abbrev pub behind_write :
      Writer × Result (Unit {0}) → (Outgoing M → Outgoing M × Bool) → Outgoing M → Outgoing M × Bool
  behind_write (w, ok _) k o = k (record o { writer = w; soon = true })
  behind_write (w, _) k o = (record o { writer = w }, false)

  abbrev pub next_round : Outgoing M × Bool → (Outgoing M → Outgoing M × Bool) → Outgoing M × Bool
  next_round (o, true) k = k o
  next_round (o, false) k = (o, false)

  -- The name of the server, and whether a flush fails that finds these bytes written.
  module _ (name : Bytes) (flush_error : Bytes → Option Error) where
    abbrev pub flush_gave : Option Error → Outgoing M → Outgoing M × Bool
    flush_gave none o = (record o { flushed = o.writer.written; soon = false }, true)
    flush_gave (some e) o = (notify_net name e (record o { soon = false }), false)

    abbrev pub flush : Outgoing M → Outgoing M × Bool
    flush o = flush_gave (flush_error o.writer.written) o

    -- The end behind a DISCONNECT.
    abbrev pub last_flush_gave : Option Error → Outgoing M → Outgoing M
    last_flush_gave none o = record o { flushed = o.writer.written; closed = true }
    last_flush_gave (some e) o = record (notify_net name e o) { closed = true }

    abbrev pub leave : Outgoing M → Outgoing M
    leave o = last_flush_gave (flush_error o.writer.written) o

    abbrev published : Bytes → Outgoing M → Outgoing M
    published topic o = record o {
      session = record o.session { messages = o.session.messages ++ pub_msg topic ∷ [] };
    }

    abbrev pub after_client : Packet → Outgoing M → Outgoing M × Bool
    after_client (publish p) o = if p.qos == 0 then (published p.topic_name o, true) else (o, true)
    after_client (disconn p) o = (leave o, false)
    after_client _ o = (o, true)

    abbrev pub after_logic : Outgoing M → Session M × Bool → Outgoing M × Bool
    after_logic o (s, true) = (record o { session = s }, true)
    after_logic o (s, false) = (leave (record o { session = s }), false)

    -- The persist method, the digits of a key, and the version of the connection.
    module _ (api : PersistMethod M) (decimal : ℕ → Bytes) (version : ℕ) where
      abbrev pub behind_logic : Packet → Outgoing M → Outgoing M × Bool
      behind_logic p o = after_logic o (after_write api decimal p o.session)

      -- One round, and whether the loop goes on. A panic of a write ends it too.
      unfoldable pub send_round : Signal → Outgoing M → Outgoing M × Bool
      send_round stopped o = (o, false)
      send_round logic_closed o = (o, false)
      send_round flush_due o = flush o
      send_round (from_client p) o =
          let q = set_version version p in behind_write (write_to q o.writer) (after_client q) o
      send_round (from_logic p) o =
          let q = set_version version p in behind_write (write_to q o.writer) (behind_logic q) o

      unfoldable pub send_loop : List Signal → Outgoing M → Outgoing M × Bool
      send_loop [] o = (o, true)
      send_loop (x ∷ xs) o = next_round (send_round x o) (send_loop xs)
