-- ===== src/Session/Sender/Stream.antt =====
-- client_conn.go, `handleSend` and `handleNetRecv`: the two ends of a connection.
use libmqtt.Prelude.{
  ap, ℕ, suc, ◌≡◌, ◌≤◌, refl, ◌∙◌, append_assoc, append-nil, Bool, true, false, List, [], ◌∷◌, ◌++◌,
  length, All, ◌==◌, Option, none, Error, ok, Bool-cases, inl, inr,
}
use mathlib.Core.Path.{subst, sym}
use libmqtt.Util.Bytes.{Bytes}
use libmqtt.Util.VarInt.{max_msg_size}
use libmqtt.Packets.Types.{v311, Packet, publish, disconn, set_version, version}
use libmqtt.Packets.Writer.{Writer, buffer}
use libmqtt.Packets.Write.{write_to}
use libmqtt.Packets.Frame.{frame}
use libmqtt.Packets.Frame.V311.{first_byte, body, write_to-frame, bytes_of-frame}
use libmqtt.Decoder.V311.RoundTrip.{IsSendable, is_auth-IsSendable}
use libmqtt.Persist.Method.{PersistMethod}
use libmqtt.Session.{after_write}
use libmqtt.Session.Receive.{net_recv_loop}
use libmqtt.Session.Receive.Stream.{sent_bytes, arrived, AreSendable, net_recv_loop-sent_bytes}
use libmqtt.Session.Sender.{
  Signal, stopped, flush_due, logic_closed, from_client, from_logic, Outgoing, flush_gave,
  after_client, behind_logic, behind_write, send_round, next_round, send_loop,
}

-- The packets of the signals, in the version of the connection.
unfoldable pub packets_of : List Signal → List Packet
packets_of [] = []
packets_of (from_client p ∷ xs) = set_version v311 p ∷ packets_of xs
packets_of (from_logic p ∷ xs) = set_version v311 p ∷ packets_of xs
packets_of (_ ∷ xs) = packets_of xs

-- Their frames, one behind the other.
unfoldable pub frames : List Packet → Bytes
frames [] = []
frames (p ∷ ps) = frame (first_byte p) (body p) ++ frames ps

sent_bytes-frames : (ps : List Packet) → AreSendable ps → sent_bytes ps ≡ ok (frames ps)
unfolding sent_bytes frames
sent_bytes-frames [] h = refl
sent_bytes-frames (p ∷ ps) (v, f, n, h) =
    rw (bytes_of-frame p v (is_auth-IsSendable p f) n, sent_bytes-frames ps h) refl

abbrev IsNoDisconn : Packet → Type 0
IsNoDisconn (disconn p) = ⊥
IsNoDisconn _ = Unit

-- Neither the end of the connection nor a DISCONNECT.
abbrev pub GoesOn : Signal → Type 0
GoesOn stopped = ⊥
GoesOn logic_closed = ⊥
GoesOn flush_due = Unit
GoesOn (from_client p) = IsNoDisconn p
GoesOn (from_logic p) = IsNoDisconn p

module _ {M : Type 0} (name : Bytes) (flush_error : Bytes → Option Error) where
  -- The loop goes on, with the writer as it was.
  abbrev Keeps : Writer → Outgoing M × Bool → Type 0
  Keeps w (o, b) = (o.writer ≡ w) × (b ≡ true)

  after_client-Keeps :
      (p : Packet) (o : Outgoing M)
      → IsNoDisconn p
      → Keeps o.writer (after_client name flush_error (set_version v311 p) o)
  unfolding set_version
  after_client-Keeps (disconn p) o h = absurd h
  after_client-Keeps (publish p) o h = elim (Bool-cases (p.qos == 0)) [
    | inl e ↦ rw e (refl, refl)
    | inr e ↦ rw e (refl, refl)
  ]
  after_client-Keeps _ o h = (refl, refl)

  module _ (api : PersistMethod M) (decimal : ℕ → Bytes) where
    behind_logic-Keeps :
        (p : Packet) (o : Outgoing M)
        → IsNoDisconn p
        → Keeps o.writer (behind_logic name flush_error api decimal v311 (set_version v311 p) o)
    unfolding set_version after_write
    behind_logic-Keeps (disconn p) o h = absurd h
    behind_logic-Keeps _ o h = (refl, refl)

    -- A packet that fits is written behind what there is, and then `k` keeps the writer.
    behind_write-Keeps :
        (q : Packet) (bs : Bytes) (k : Outgoing M → Outgoing M × Bool) (o : Outgoing M)
        → o.writer ≡ buffer bs
        → version q ≡ v311
        → IsSendable q
        → length (body q) ≤ max_msg_size
        → ((o : Outgoing M) → Keeps o.writer (k o))
        → Keeps
            (buffer (bs ++ frame (first_byte q) (body q)))
            (behind_write (write_to q o.writer) k o)
    behind_write-Keeps q bs k o e v f n h =
        let w : write_to q o.writer ≡ (buffer (bs ++ frame (first_byte q) (body q)), ok tt) =
          rw e (write_to-frame q bs v (is_auth-IsSendable q f) n) in
        subst (λ r. Keeps (buffer (bs ++ frame (first_byte q) (body q))) (behind_write r k o))
          (sym w) (h _)

    next_round-Keeps :
        (w w' : Writer) (r : Outgoing M × Bool) (k : Outgoing M → Outgoing M × Bool)
        → Keeps w r
        → ((o : Outgoing M) → o.writer ≡ w → Keeps w' (k o))
        → Keeps w' (next_round r k)
    next_round-Keeps w w' (o, true) k h step = step o h.0
    next_round-Keeps w w' (o, false) k h step = cc

    next_round-append :
        (r : Outgoing M × Bool) (k k' l : Outgoing M → Outgoing M × Bool)
        → ((o : Outgoing M) → k' o ≡ next_round (k o) l)
        → next_round r k' ≡ next_round (next_round r k) l
    next_round-append (o, true) k k' l h = h o
    next_round-append (o, false) k k' l h = refl

    send_loop-append :
        (xs : List Signal) (o : Outgoing M)
        → send_loop name flush_error api decimal v311 (xs ++ flush_due ∷ []) o
          ≡ next_round
              (send_loop name flush_error api decimal v311 xs o)
              (send_loop name flush_error api decimal v311 (flush_due ∷ []))
    unfolding send_loop
    send_loop-append [] o = refl
    send_loop-append (x ∷ xs) o =
        next_round-append (send_round name flush_error api decimal v311 x o)
          (send_loop name flush_error api decimal v311 xs)
          (send_loop name flush_error api decimal v311 (xs ++ flush_due ∷ []))
          (send_loop name flush_error api decimal v311 (flush_due ∷ [])) (send_loop-append xs)

    module _ (no_error : (written : Bytes) → flush_error written ≡ none) where
      flush-Keeps :
          (o : Outgoing M)
          → Keeps o.writer (flush_gave name flush_error (flush_error o.writer.written) o)
      flush-Keeps o =
          subst (λ r. Keeps o.writer (flush_gave name flush_error r o))
            (sym (no_error o.writer.written)) (refl, refl)

      flush_gave-written :
          (r : Option Error) (o : Outgoing M)
          → r ≡ none
          → let u = next_round (flush_gave name flush_error r o) (λ o'. (o', true)) in
            (u.0.flushed ≡ o.writer.written) × (u.1 ≡ true)
      flush_gave-written r o h = rw h (refl, refl)

      flush-written :
          (r : Outgoing M × Bool) (w : Writer)
          → Keeps w r
          → let u = next_round r (send_loop name flush_error api decimal v311 (flush_due ∷ [])) in
            (u.0.flushed ≡ w.written) × (u.1 ≡ true)
      unfolding send_loop send_round
      flush-written (o, true) w h =
          let u = flush_gave-written (flush_error o.writer.written) o (no_error o.writer.written) in
          (u.0 ∙ ap (λ x. x.written) h.0, u.1)
      flush-written (o, false) w h = cc

      send_loop-Keeps :
          (xs : List Signal) (o : Outgoing M) (bs : Bytes)
          → o.writer ≡ buffer bs
          → AreSendable (packets_of xs)
          → All GoesOn xs
          → Keeps
              (buffer (bs ++ frames (packets_of xs)))
              (send_loop name flush_error api decimal v311 xs o)
      unfolding send_loop send_round packets_of frames
      send_loop-Keeps [] o bs e f g = rw (append-nil bs) (e, refl)
      send_loop-Keeps (stopped ∷ xs) o bs e f g = absurd g.0
      send_loop-Keeps (logic_closed ∷ xs) o bs e f g = absurd g.0
      send_loop-Keeps (flush_due ∷ xs) o bs e f g =
          next_round-Keeps o.writer _ _ _ (flush-Keeps o)
            λ o' e'. send_loop-Keeps xs o' bs (e' ∙ e) f g.1
      send_loop-Keeps (from_client p ∷ xs) o bs e f g =
          let q = set_version v311 p in
          next_round-Keeps _ _ _ _
            (behind_write-Keeps q bs (after_client name flush_error q) o e f.0 f.1 f.2
              λ o'. after_client-Keeps p o' g.0)
            λ o' e'.
              subst (λ x. Keeps (buffer x) (send_loop name flush_error api decimal v311 xs o'))
                (append_assoc bs _ _)
                (send_loop-Keeps xs o' (bs ++ frame (first_byte q) (body q)) e' f.3 g.1)
      send_loop-Keeps (from_logic p ∷ xs) o bs e f g =
          let q = set_version v311 p in
          next_round-Keeps _ _ _ _
            (behind_write-Keeps q bs (behind_logic name flush_error api decimal v311 q) o e f.0 f.1
              f.2 λ o'. behind_logic-Keeps p o' g.0)
            λ o' e'.
              subst (λ x. Keeps (buffer x) (send_loop name flush_error api decimal v311 xs o'))
                (append_assoc bs _ _)
                (send_loop-Keeps xs o' (bs ++ frame (first_byte q) (body q)) e' f.3 g.1)

      -- A flush behind them puts all that was written on the connection.
      send_loop-flushed :
          (xs : List Signal) (o : Outgoing M) (w : Writer)
          → Keeps w (send_loop name flush_error api decimal v311 xs o)
          → let r = send_loop name flush_error api decimal v311 (xs ++ flush_due ∷ []) o in
            (r.0.flushed ≡ w.written) × (r.1 ≡ true)
      send_loop-flushed xs o w h = rw (send_loop-append xs o) (flush-written _ w h)

      -- On a connection of version 3.1.1 whose writer and flushes do not fail, whatever packets the client and
      -- `logic` hand on, in whatever order with each other and with flushes: if their fields fit and none of
      -- them is a DISCONNECT, the loop goes on, and at the next flush behind them the other end has got
      -- bytes from which it passes them on to its `logic` in that order, but for PINGRESP, and up to what
      -- the format does not carry.
      pub net_recv_loop-send_loop :
          (xs : List Signal) (o : Outgoing M)
          → o.writer ≡ buffer []
          → AreSendable (packets_of xs)
          → All GoesOn xs
          → let r = send_loop name flush_error api decimal v311 (xs ++ flush_due ∷ []) o in
            (r.1 ≡ true)
            × (net_recv_loop (suc (length (packets_of xs))) v311 r.0.flushed
                ≡ arrived (packets_of xs))
      net_recv_loop-send_loop xs o e f g =
          let (sent, sends, arrives) = net_recv_loop-sent_bytes (packets_of xs) f in
          let same : sent ≡ frames (packets_of xs) =
            (let h = sent_bytes-frames (packets_of xs) f in cc) in
          let out = send_loop-flushed xs o _ (send_loop-Keeps xs o [] e f g) in
          (
            out.1,
            rw (out.0) (
                subst
                  (λ b.
                    net_recv_loop (suc (length (packets_of xs))) v311 b ≡ arrived (packets_of xs))
                  same arrives),
          )
