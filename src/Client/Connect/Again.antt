-- ===== src/Client/Connect/Again.antt =====
-- client_conn_options.go, `connect` with automatic reconnection: there is always another attempt.
use libmqtt.Prelude.{
  ℕ, suc, ap, ◌<◌, ◌-◌, ◌≡◌, refl, arith, Bool, true, false, List, [], ◌∷◌, length, ltb, ◌==◌, ◌&&◌,
  if◌then◌else◌, none, some, Result, ok, err, panic, stuck, Returns, value, error, All, ℤ, pos, ◌⊎◌,
  inl, inr, Bool-cases, Option-cases,
}
use libmqtt.Util.Bytes.{Bytes}
use libmqtt.Util.VarInt.{var_int_bytes, max_msg_size}
use libmqtt.Util.VarInt.RoundTrip.{var_int_bytes-groups, var_int_bytes-too_large}
use libmqtt.Props.Conn.{conn_props}
use libmqtt.Packets.Types.{v311, v5, ConnPacket, conn, conn_ack, version_of}
use libmqtt.Packets.Writer.{
  Writer, W, and_then, lift, ◌>>=◌, write_bytes, base_write, base_write_v5,
}
use libmqtt.Packets.Write.{write_to, write_conn, conn_payload, will_props_payload}
use libmqtt.Packets.Clone.{clone, clone_props}
use libmqtt.Client.{World, ConnectOptions}
use libmqtt.Client.Settings.Shared.{packet_at}
use libmqtt.Client.Connect.{
  Reply, gone, answered, stopped, Meets, Next, again, flushed, send_raw, next_delay, reconnect,
  retry, refused, on_reply, after_send, connect, following, attempts,
}

-- The writes of `m` return, whatever the writer does.
abbrev Writes : {A : Type 0} → W A → Type 0
Writes m = (w : Writer) → Returns (m w).1

and_then-Returns :
    {A B : Type 0} (r : Writer × Result A) (f : A → W B)
    → Returns r.1
    → ((a : A) → Writes (f a))
    → Returns (and_then r f).1
and_then-Returns (w, ok a) f h k = k a w
and_then-Returns (w, err e) f h k = error e
and_then-Returns (w, panic) f h k = elim h [ ]
and_then-Returns (w, stuck) f h k = elim h [ ]

>>=-Writes :
    {A B : Type 0} (m : W A) (f : A → W B) → Writes m → ((a : A) → Writes (f a)) → Writes (m >>= f)
>>=-Writes m f h k w = and_then-Returns (m w) f (h w) k

lift-Writes : {A : Type 0} (r : Result A) → Returns r → Writes (lift r)
lift-Writes r h w = h

write_bytes-Writes : (bs : Bytes) → Writes (write_bytes bs)
unfolding write_bytes
write_bytes-Writes [] w = value tt
write_bytes-Writes (b ∷ bs) w = elim (Option-cases (w.refuse w.written (b ∷ bs))) [
  | inl e ↦ rw (write_bytes, e) (value tt)
  | inr ((n, f), e) ↦ rw (write_bytes, e) (error f)
]

var_int_bytes-Returns : (n : ℕ) → Returns (var_int_bytes (pos n))
var_int_bytes-Returns n = elim (Bool-cases (ltb max_msg_size n)) [
  | inl e ↦ rw ((var_int_bytes-too_large n).1 (ground (arith, e))) (error _)
  | inr e ↦ rw (var_int_bytes-groups n (ground (arith, e))) (value _)
]

-- What is written to a connection, by the way that it is put together.
ruleset writing = (>>=-Writes, lift-Writes, write_bytes-Writes, var_int_bytes-Returns)

base_write-Writes : (first : ℕ) (vh payload : Bytes) → Writes (base_write first vh payload)
unfolding base_write
base_write-Writes first vh payload = search writing

base_write_v5-Writes :
    (first : ℕ) (vh props payload : Bytes) → Writes (base_write_v5 first vh props payload)
unfolding base_write_v5
base_write_v5-Writes first vh props payload =
    >>=-Writes _ _ (lift-Writes _ (var_int_bytes-Returns _))
      λ len. base_write-Writes first _ payload

if-Writes : {A : Type 0} (b : Bool) (x y : W A) → Writes x → Writes y → Writes (if b then x else y)
if-Writes true x y h k = h
if-Writes false x y h k = k

conn_payload-Writes : (c : ConnPacket) → c.will_props ≡ none → Writes (conn_payload c)
unfolding conn_payload will_props_payload
conn_payload-Writes c h =
    if-Writes c.is_will _ _
      (if-Writes (c.proto_version == v5) _ _
        (>>=-Writes _ _ (lift-Writes _ (rw h (value _))) λ wp. lift-Writes _ (value _))
        (lift-Writes _ (value _)))
      (lift-Writes _ (value _))

-- A connect packet without properties is written, or refused with an error.
write_conn-Writes :
    (c : ConnPacket) → c.props ≡ none → c.will_props ≡ none → Writes (write_to (conn c))
unfolding write_to write_conn conn_props
write_conn-Writes c h k =
    if-Writes (version_of c.proto_version == v311) _ _
      (>>=-Writes _ _ (conn_payload-Writes c k) λ payload. base_write-Writes 0x10 _ payload)
      (if-Writes (version_of c.proto_version == v5) _ _
        (>>=-Writes _ _ (lift-Writes _ (rw h (value _))) λ props.
          >>=-Writes _ _ (conn_payload-Writes c k)
            λ payload. base_write_v5-Writes 0x10 _ props payload)
        (lift-Writes _ (error _)))

flushed-Returns : (b : Bool) (r : Result (Unit {0})) → Returns r → Returns (flushed b r)
flushed-Returns true (ok u) h = error _
flushed-Returns false (ok u) h = value _
flushed-Returns b (err e) h = error e
flushed-Returns b panic h = elim h [ ]
flushed-Returns b stuck h = elim h [ ]

send_raw-Returns :
    (c : ConnPacket) (w : Writer) (b : Bool)
    → c.props ≡ none
    → c.will_props ≡ none
    → Returns (send_raw c w b)
unfolding send_raw
send_raw-Returns c w b h k = flushed-Returns b _ (write_conn-Writes c h k w)

-- During an attempt no one closes the client or disconnects it from the server with `Disconnect`, and
-- the timer of the next one fires.
abbrev pub StaysOpen : {w : World} → Meets w → Type 0
StaysOpen m =
    (m.closing_dialed ≡ false)
    × (m.closing_retry ≡ false)
    × (m.closing_after ≡ false)
    × (m.parent_exiting ≡ false)
    × (m.timer_fires ≡ true)

module _ {w : World} (o : ConnectOptions w) (auto : o.auto_reconnect ≡ true) where
  -- The next attempt, with the same version after the delay has grown, or with the next lower one.
  abbrev Goes : ℕ → ℤ → Next → Type 0
  Goes v d n = (n ≡ again v (next_delay o d)) ⊎ ((v311 < v) × (n ≡ again (v - 1) d))

  module _ (m : Meets w) (up : StaysOpen m) (v : ℕ) (d : ℤ) where
    reconnect-Goes : reconnect o m v d ≡ again v (next_delay o d)
    reconnect-Goes = rw (up.4) refl

    retry-Goes : retry o m v d ≡ again v (next_delay o d)
    unfolding next_delay
    retry-Goes = rw (auto, up.1) reconnect-Goes

    refused-Goes : (code : ℕ) → Goes v d (refused o m v d code).next
    refused-Goes code = elim (Bool-cases (ltb v311 v && o.proto_compromise && code == 132)) [
      | inl e ↦ rw e (inr (ground (arith, e), refl))
      | inr e ↦ rw e (inl retry-Goes)
    ]

    on_reply-Goes : (r : Reply) → Goes v d (on_reply o m v d r).next
    on_reply-Goes gone = inl retry-Goes
    on_reply-Goes stopped = inl retry-Goes
    on_reply-Goes (answered (conn_ack p)) = elim (Bool-cases (p.code == 0)) [
      | inl e ↦ rw (e, up.2, up.3) (inl reconnect-Goes)
      | inr e ↦ rw e (refused-Goes p.code)
    ]
    on_reply-Goes (answered _) = inl retry-Goes

    after_send-Goes : (r : Result (Unit {0})) → Returns r → Goes v d (after_send o m v d r).next
    after_send-Goes (ok u) h = on_reply-Goes m.reply
    after_send-Goes (err e) h = inl retry-Goes
    after_send-Goes panic h = elim h [ ]
    after_send-Goes stuck h = elim h [ ]

    connect-Goes :
        (packets : List ConnPacket) (p : ConnPacket)
        → packet_at o.conn_packet packets ≡ some p
        → p.props ≡ none
        → Goes v d (connect o m v d packets).next
    unfolding connect clone clone_props
    connect-Goes packets p at h = elim (Option-cases m.dial_error) [
      | inr (f, e) ↦ rw e (inl retry-Goes)
      | inl e ↦
          rw (e, up.0, at, h)
            (after_send-Goes _ (send_raw-Returns _ m.writer m.flush_fails refl refl))
    ]

  module _ (packets : List ConnPacket) (p : ConnPacket)
      (at : packet_at o.conn_packet packets ≡ some p) (h : p.props ≡ none) where
    following-length :
        (rest : ℕ → ℤ → List (ℕ × ℤ)) (v : ℕ) (d : ℤ) (n : Next) (k : ℕ)
        → Goes v d n
        → ((v : ℕ) (d : ℤ) → length (rest v d) ≡ k)
        → length (following rest n) ≡ k
    following-length rest v d n k (inl e) go = rw e (go v _)
    following-length rest v d n k (inr (l, e)) go = rw e (go (v - 1) d)

    -- With automatic reconnection and a connect packet without properties, as long as no one closes the
    -- client or disconnects it from the server, and the timers fire, every attempt is followed by another,
    -- whatever it meets: a failed dial or write, a refusal, another packet or none, or the end of a
    -- connection.
    pub attempts-length :
        (ms : List (Meets w)) (v : ℕ) (d : ℤ)
        → All StaysOpen ms
        → length (attempts o packets ms v d) ≡ length ms
    unfolding attempts
    attempts-length [] v d up = refl
    attempts-length (m ∷ ms) v d (u, up) = ap suc (
        following-length (attempts o packets ms) v d _ (length ms)
          (connect-Goes m u v d packets p at h) λ v' d'. attempts-length ms v' d' up)
