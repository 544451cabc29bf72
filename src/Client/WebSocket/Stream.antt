-- ===== src/Client/WebSocket/Stream.antt =====
-- client_connector.go, `wsConn.Read`: the bytes that reads give, and those that they leave.
use libmqtt.Prelude.{
  ℕ, zero, suc, ◌≡◌, refl, ◌∙◌, sym, ap, List, [], ◌∷◌, ◌++◌, append_assoc, take, drop,
  take-append-drop, ◌⊎◌, inl, inr, length, ◌<◌, arith,
}
use libmqtt.Util.Bytes.{Bytes}
use libmqtt.Client.WebSocket.{
  ReadEnd, got, at_end, waiting, broken, WsConn, buffer_read, keep, read_next, read, more, read_all,
}

module _ {Fault : Type 0} where
  -- The bytes of the ends of reads, and those of the messages.
  abbrev pub one_got : ReadEnd Fault → Bytes
  one_got (got b) = b
  one_got _ = []

  abbrev pub bytes_got : List (ReadEnd Fault) → Bytes
  bytes_got [] = []
  bytes_got (e ∷ es) = one_got e ++ bytes_got es

  abbrev pub bytes_in : List (Fault ⊎ Bytes) → Bytes
  bytes_in [] = []
  bytes_in (inl e ∷ ms) = bytes_in ms
  bytes_in (inr m ∷ ms) = m ++ bytes_in ms

  -- All bytes of a connection that are still to be read.
  abbrev pub ahead : WsConn Fault → Bytes
  ahead c = c.read_buf ++ bytes_in c.incoming

  -- What is behind the bytes of one read.
  abbrev AddsUp : ReadEnd Fault × WsConn Fault → Bytes → Type 0
  AddsUp (e, c) bs = one_got e ++ ahead c ≡ bs

  keep-AddsUp :
      (n : ℕ) (buf : Bytes) (c : WsConn Fault) (ms : List (Fault ⊎ Bytes))
      → AddsUp (keep c ms (buffer_read n buf)) (buf ++ bytes_in ms)
  keep-AddsUp zero [] c ms = refl
  keep-AddsUp (suc n) [] c ms = refl
  keep-AddsUp zero (b ∷ bs) c ms = refl
  keep-AddsUp (suc n) (b ∷ bs) c ms =
      let e : (take n bs ++ drop n bs) ++ bytes_in ms ≡ bs ++ bytes_in ms =
        ap (λ x. x ++ bytes_in ms) (take-append-drop n bs) in
      ap (◌∷◌ b) (sym (append_assoc (take n bs) (drop n bs) (bytes_in ms)) ∙ e)

  read_next-AddsUp :
      (n : ℕ) (c : WsConn Fault) (ms : List (Fault ⊎ Bytes))
      → AddsUp (read_next n c ms) (c.read_buf ++ bytes_in ms)
  read_next-AddsUp n c [] = refl
  read_next-AddsUp n c (inl e ∷ ms) = refl
  read_next-AddsUp n c (inr m ∷ ms) =
      keep-AddsUp n (c.read_buf ++ m) c ms ∙ append_assoc c.read_buf m (bytes_in ms)

  -- The same for a row of reads.
  abbrev AddUp : List (ReadEnd Fault) × WsConn Fault → Bytes → Type 0
  AddUp (es, c) bs = bytes_got es ++ ahead c ≡ bs

  more-AddUp :
      (rest : WsConn Fault → List (ReadEnd Fault) × WsConn Fault) (r : ReadEnd Fault × WsConn Fault)
      → ((c : WsConn Fault) → AddUp (rest c) (ahead c))
      → AddUp (more rest r) (one_got r.0 ++ ahead r.1)
  more-AddUp rest (got b, c) h =
      append_assoc b (bytes_got (rest c).0) (ahead (rest c).1) ∙ ap (◌++◌ b) (h c)
  more-AddUp rest (at_end, c) h = refl
  more-AddUp rest (waiting, c) h = refl
  more-AddUp rest (broken e, c) h = refl

  -- Reads of any sizes give the bytes of the buffer and of the messages in order: what they gave and what
  -- is ahead of the connection then is what was ahead of it before.
  pub read_all-ahead :
      (ns : List ℕ) (c : WsConn Fault)
      → bytes_got (read_all ns c).0 ++ ahead (read_all ns c).1 ≡ ahead c
  unfolding read_all read
  read_all-ahead [] c = refl
  read_all-ahead (n ∷ ns) c =
      more-AddUp (read_all ns) (read n c) (read_all-ahead ns) ∙ read_next-AddsUp n c c.incoming

  -- If a message is longer than the slice that it is read into and no other message comes, the next read
  -- waits, of whatever size it is, while the end of the message stands in the buffer.
  pub read_all-waiting :
      (n k : ℕ) (message : Bytes)
      → n < length message
      → let c : WsConn Fault = record { read_buf = []; incoming = inr message ∷ []; sent = [] } in
        ((read_all (n ∷ k ∷ []) c).0 ≡ got (take n message) ∷ waiting ∷ [])
        × ((read_all (n ∷ k ∷ []) c).1.read_buf ≡ drop n message)
  unfolding read_all read
  read_all-waiting n k [] h = absurd (omega arith)
  read_all-waiting n k (b ∷ bs) h = (refl, refl)
