-- ===== src/Session/Receive/Stream.antt =====
-- client_conn.go, `handleNetRecv` at the other end of a connection that packets are written to.
use libmqtt.Prelude.{
  ℕ, suc, ◌≤◌, ◌≡◌, refl, ◌∙◌, List, [], ◌∷◌, ◌++◌, length, ◌==◌, if◌then◌else◌, Result, ok, ◌>>=◌,
  Bool-cases, inl, inr,
}
use libmqtt.Util.Bytes.{Bytes}
use libmqtt.Util.VarInt.{max_msg_size}
use libmqtt.Packets.Types.{v311, Packet, ctrl_type, version, version_of, proto_version, conn, auth}
use libmqtt.Packets.Write.{bytes_of}
use libmqtt.Packets.Frame.V311.{body}
use libmqtt.Decoder.{decode}
use libmqtt.Decoder.V311.Connect.{received_conn}
use libmqtt.Decoder.V311.RoundTrip.{received, received_ack, IsSendable, decode-bytes_of}
use libmqtt.Session.Receive.{passed, pinged, net_recv, net_recv_loop}

-- What the packets of a list are written as, one behind the other.
unfoldable pub sent_bytes : List Packet → Result Bytes
sent_bytes [] = ok []
sent_bytes (p ∷ ps) = do bs ← bytes_of p; rest ← sent_bytes ps; ok (bs ++ rest)

-- What `logic` has of them: PINGRESP goes to `keepalive`.
unfoldable pub arrived : List Packet → List Packet
arrived [] = []
arrived (p ∷ ps) = if ctrl_type p == 13 then arrived ps else received p ∷ arrived ps

abbrev pub AreSendable : List Packet → Type 0
AreSendable [] = Unit
AreSendable (p ∷ ps) =
    (version p ≡ v311) × IsSendable p × (length (body p) ≤ max_msg_size) × AreSendable ps

received-header :
    (p : Packet)
    → IsSendable p
    → (version (received p) ≡ v311) × (ctrl_type (received p) ≡ ctrl_type p)
unfolding received version version_of proto_version ctrl_type received_conn received_ack
received-header (auth p) h = absurd h
received-header (conn p) h = (refl, refl)
received-header _ h = (refl, refl)

net_recv-received :
    (p : Packet) (input rest : Bytes)
    → IsSendable p
    → decode v311 input ≡ ok (received p, rest)
    → net_recv v311 input ≡ (if ctrl_type p == 13 then pinged rest else passed (received p) rest)
unfolding net_recv
net_recv-received p input rest f d =
    let (same_version, same_type) = received-header p f in rw (d, same_version, same_type) refl

net_recv_loop-received :
    (rounds : ℕ) (p : Packet) (input rest : Bytes)
    → IsSendable p
    → decode v311 input ≡ ok (received p, rest)
    → net_recv_loop (suc rounds) v311 input ≡ (
        if ctrl_type p == 13
        then net_recv_loop rounds v311 rest
        else received p ∷ net_recv_loop rounds v311 rest)
unfolding net_recv_loop
net_recv_loop-received rounds p input rest f d =
    let e = net_recv-received p input rest f d in
    elim (Bool-cases (ctrl_type p == 13)) [
      | inl h ↦ rw (e, net_recv_loop, h) refl
      | inr h ↦ rw (e, net_recv_loop, h) refl
    ]

net_recv_loop-end : (rounds : ℕ) → net_recv_loop (suc rounds) v311 [] ≡ []
unfolding net_recv_loop net_recv decode
net_recv_loop-end rounds = refl

-- On a connection of version 3.1.1, packets whose fields fit are written without an error, and the other
-- end passes them on to `logic` in the same order, but for PINGRESP, and up to what the format does not
-- carry.
pub net_recv_loop-sent_bytes :
    (ps : List Packet)
    → AreSendable ps
    → (bs : Bytes) × (sent_bytes ps ≡ ok bs)
      × (net_recv_loop (suc (length ps)) v311 bs ≡ arrived ps)
unfolding sent_bytes arrived
net_recv_loop-sent_bytes [] h = ([], refl, net_recv_loop-end 0)
net_recv_loop-sent_bytes (p ∷ ps) (v, f, n, h) =
    let (rest, e, l) = net_recv_loop-sent_bytes ps h in
    let (bs, e', d) = decode-bytes_of p rest v f n in
    (
      bs ++ rest,
      rw (e', e) refl,
      net_recv_loop-received (suc (length ps)) p (bs ++ rest) rest f d ∙ rw l refl,
    )
