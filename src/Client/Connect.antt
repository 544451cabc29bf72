-- ===== src/Client/Connect.antt =====
-- client_conn_options.go, `connect`: one attempt to connect to a server and what follows it.
-- The table of connections is in Client/Connect/Table. Left out are the channels that are closed behind a
-- refusal, and the message about a flush that failed.
pub mod Delay
pub mod Again
pub mod Table
use libmqtt.Prelude.{
  ℕ, ◌-◌, Bool, true, false, ◌&&◌, not, List, [], ◌∷◌, ltb, ◌==◌, if◌then◌else◌, Option, none, some,
  Result, ok, err, panic, stuck, ◌>>=◌, write_failed, ℤ,
}
use libmqtt.Packets.Types.{v311, ConnPacket, ConnAckPacket, Packet, conn, conn_ack}
use libmqtt.Packets.Writer.{Writer}
use libmqtt.Packets.Write.{write_to}
use libmqtt.Packets.Clone.{clone}
use libmqtt.Client.{World, ConnectOptions}
use libmqtt.Client.Options.{lt_int}
use libmqtt.Client.Settings.Shared.{packet_at}

-- What the wait for the answer ends with: the receiving loop gave up, a packet, or the connection
-- was told to stop.
pub data Reply : Type 0 where
  gone : Reply
  answered : Packet → Reply
  stopped : Reply

-- What one attempt meets. The client may be closing at each of the places that ask for it, and the
-- wait before the next attempt ends by the timer or by the end of the client.
pub record Meets (w : World) : Type 0 where
  pub dial_error : Option w.Fault
  pub closing_dialed : Bool
  pub writer : Writer
  pub flush_fails : Bool
  pub reply : Reply
  pub closing_retry : Bool
  pub closing_after : Bool
  pub parent_exiting : Bool
  pub timer_fires : Bool

pub data ConnFailure (w : World) : Type 0 where
  dial_failed : w.Fault → ConnFailure w
  bad_packet : ConnFailure w

-- A call of the connection handler.
pub record Notice (w : World) : Type 0 where
  pub code : ℕ
  pub failure : Option (ConnFailure w)

-- What comes next: nothing, a crash of the program, or another attempt with its version and its delay.
pub data Next : Type 0 where
  finished crashed : Next
  again : ℕ → ℤ → Next

pub record Round (w : World) : Type 0 where
  pub next : Next
  pub notices : List (Notice w)

abbrev pub code_unsupported_proto_version : ℕ
code_unsupported_proto_version = 132

-- `sendRaw`.
abbrev pub flushed : Bool → Result (Unit {0}) → Result (Unit {0})
flushed fails (ok u) = if fails then err write_failed else ok u
flushed fails r = r

unfoldable pub send_raw : ConnPacket → Writer → Bool → Result (Unit {0})
send_raw p writer fails = flushed fails (write_to (conn p) writer).1

-- The attempts after this one, as `rest` has them.
abbrev pub following : (ℕ → ℤ → List (ℕ × ℤ)) → Next → List (ℕ × ℤ)
following rest finished = []
following rest crashed = []
following rest (again version delay) = rest version delay

module _ {w : World} (o : ConnectOptions w) where
  -- The delay is multiplied, up to the largest.
  unfoldable pub next_delay : ℤ → ℤ
  next_delay d =
      let e = w.scale d o.back_off_factor in if lt_int o.max_delay e then o.max_delay else e

  module _ (m : Meets w) (version : ℕ) (delay : ℤ) where
    -- The label `reconnect`.
    abbrev pub reconnect : Next
    reconnect = if m.timer_fires then again version (next_delay delay) else finished

    abbrev pub retry : Next
    retry = if o.auto_reconnect && not m.closing_retry then reconnect else finished

    abbrev pub notify : ℕ → Option (ConnFailure w) → List (Notice w)
    notify code failure = elim o.conn_handler [
      | none ↦ []
      | some h ↦ record { code = code; failure = failure } ∷ []
    ]

    abbrev pub round : Next → List (Notice w) → Round w
    round n ns = record { next = n; notices = ns }

    -- A refusal by the server; one that is about the version may bring the next lower one.
    abbrev pub refused : ℕ → Round w
    refused code =
        if ltb v311 version && o.proto_compromise && code == code_unsupported_proto_version
        then round (again (version - 1) delay) []
        else round retry (notify code none)

    -- The connection is up, and `logic` has come to its end.
    abbrev pub established : Round w
    established =
        if m.closing_after
        then round finished (notify 0 none)
        else if m.parent_exiting
        then round finished (notify 0 none)
        else round reconnect (notify 0 none)

    abbrev pub on_reply : Reply → Round w
    on_reply gone = round retry (notify 255 (some bad_packet))
    on_reply (answered (conn_ack p)) = if p.code == 0 then established else refused p.code
    on_reply (answered p) = round retry (notify 255 (some bad_packet))
    on_reply stopped = round retry []

    abbrev pub after_send : Result (Unit {0}) → Round w
    after_send (ok u) = on_reply m.reply
    after_send (err e) = round retry []
    after_send panic = round crashed []
    after_send stuck = round crashed []

    -- The connect packet of this attempt, sent.
    abbrev pub handshake : Option ConnPacket → Round w
    handshake none = round crashed []
    handshake (some p) =
        after_send
          (clone p >>= λ q. send_raw (record q { proto_version = version }) m.writer m.flush_fails)

    unfoldable pub connect : List ConnPacket → Round w
    connect packets = elim m.dial_error [
      | some f ↦ round retry (notify 255 (some (dial_failed f)))
      | none ↦
          if m.closing_dialed
          then round finished []
          else handshake (packet_at o.conn_packet packets)
    ]

  -- The attempts for a server: the version and the delay of each, as long as there is another.
  unfoldable pub attempts : List ConnPacket → List (Meets w) → ℕ → ℤ → List (ℕ × ℤ)
  attempts packets [] version delay = []
  attempts packets (m ∷ ms) version delay =
      (version, delay) ∷ following (attempts packets ms) (connect m version delay packets).next
