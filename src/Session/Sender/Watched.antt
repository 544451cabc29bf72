-- ===== src/Session/Sender/Watched.antt =====
-- client_conn.go, `handleSend`: nothing that was written waits for long.
use libmqtt.Prelude.{
  ℕ, ◌≡◌, refl, Bool, true, false, List, [], ◌∷◌, Option, none, some, Error, Result, ok, err, panic,
  stuck, Bool-cases, ◌==◌, inl, inr, ◌⊎◌,
}
use libmqtt.Util.Bytes.{Bytes}
use libmqtt.Packets.Types.{Packet, publish, disconn, set_version}
use libmqtt.Packets.Writer.{Writer}
use libmqtt.Packets.Write.{write_to}
use libmqtt.Persist.Method.{PersistMethod}
use libmqtt.Session.{Session, after_write}
use libmqtt.Session.Sender.{
  Signal, stopped, flush_due, logic_closed, from_client, from_logic, Outgoing, flush_gave,
  after_client, after_logic, behind_logic, behind_write, send_round, next_round, send_loop,
}

-- The timer is short, or all that the writer took has been flushed.
abbrev pub IsWatched : {M : Type 0} → Outgoing M → Type 0
IsWatched o = (o.soon ≡ true) ⊎ (o.flushed ≡ o.writer.written)

-- The same, if the loop goes on.
abbrev pub StaysWatched : {M : Type 0} → Outgoing M × Bool → Type 0
StaysWatched (o, true) = IsWatched o
StaysWatched (o, false) = Unit

module _ {M : Type 0} where
  behind_write-StaysWatched :
      (r : Writer × Result (Unit {0})) (k : Outgoing M → Outgoing M × Bool) (o : Outgoing M)
      → ((o : Outgoing M) → o.soon ≡ true → StaysWatched (k o))
      → StaysWatched (behind_write r k o)
  behind_write-StaysWatched (w, ok u) k o h = h _ refl
  behind_write-StaysWatched (w, err e) k o h = tt
  behind_write-StaysWatched (w, panic) k o h = tt
  behind_write-StaysWatched (w, stuck) k o h = tt

  next_round-StaysWatched :
      (r : Outgoing M × Bool) (k : Outgoing M → Outgoing M × Bool)
      → StaysWatched r
      → ((o : Outgoing M) → IsWatched o → StaysWatched (k o))
      → StaysWatched (next_round r k)
  next_round-StaysWatched (o, true) k h step = step o h
  next_round-StaysWatched (o, false) k h step = tt

  module _ (name : Bytes) (flush_error : Bytes → Option Error) where
    flush_gave-StaysWatched :
        (r : Option Error) (o : Outgoing M) → StaysWatched (flush_gave name flush_error r o)
    flush_gave-StaysWatched none o = inr refl
    flush_gave-StaysWatched (some e) o = tt

    after_client-StaysWatched :
        (p : Packet) (o : Outgoing M)
        → o.soon ≡ true
        → StaysWatched (after_client name flush_error p o)
    after_client-StaysWatched (publish p) o h = elim (Bool-cases (p.qos == 0)) [
      | inl e ↦ rw e (inl h)
      | inr e ↦ rw e (inl h)
    ]
    after_client-StaysWatched (disconn p) o h = tt
    after_client-StaysWatched _ o h = inl h

    after_logic-StaysWatched :
        (o : Outgoing M) (r : Session M × Bool)
        → o.soon ≡ true
        → StaysWatched (after_logic name flush_error o r)
    after_logic-StaysWatched o (s, true) h = inl h
    after_logic-StaysWatched o (s, false) h = tt

    module _ (api : PersistMethod M) (decimal : ℕ → Bytes) (version : ℕ) where
      send_round-StaysWatched :
          (x : Signal) (o : Outgoing M)
          → StaysWatched (send_round name flush_error api decimal version x o)
      unfolding send_round
      send_round-StaysWatched stopped o = tt
      send_round-StaysWatched logic_closed o = tt
      send_round-StaysWatched flush_due o = flush_gave-StaysWatched (flush_error o.writer.written) o
      send_round-StaysWatched (from_client p) o =
          let q = set_version version p in
          behind_write-StaysWatched (write_to q o.writer) (after_client name flush_error q) o
            (after_client-StaysWatched q)
      send_round-StaysWatched (from_logic p) o =
          let q = set_version version p in
          behind_write-StaysWatched (write_to q o.writer)
            (behind_logic name flush_error api decimal version q) o
            λ o'. after_logic-StaysWatched o' (after_write api decimal q o'.session)

      -- Whatever wakes the loop, and however the writer behaves: as long as it goes on, the timer of the next
      -- flush is short or everything that was written has been flushed.
      pub send_loop-StaysWatched :
          (xs : List Signal) (o : Outgoing M)
          → IsWatched o
          → StaysWatched (send_loop name flush_error api decimal version xs o)
      unfolding send_loop
      send_loop-StaysWatched [] o h = h
      send_loop-StaysWatched (x ∷ xs) o h =
          next_round-StaysWatched (send_round name flush_error api decimal version x o)
            (send_loop name flush_error api decimal version xs) (send_round-StaysWatched x o)
            λ o' h'. send_loop-StaysWatched xs o' h'
