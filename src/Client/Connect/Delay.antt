-- ===== src/Client/Connect/Delay.antt =====
-- client_conn_options.go: the versions and delays of all attempts to connect.
use libmqtt.Prelude.{
  ℕ, ◌≡◌, arith, ◌⊎◌, inl, inr, Bool, true, false, List, [], ◌∷◌, ◌&&◌, not, ltb, ◌==◌,
  if◌then◌else◌, Option, none, some, Result, ok, err, panic, stuck, All, ℤ, Bool-cases,
  Option-cases,
}
use libmqtt.Packets.Types.{v311, v5, ConnPacket, conn_ack}
use libmqtt.Client.{World, ConnectOptions, AsyncClient}
use libmqtt.Client.Options.{lt_int}
use libmqtt.Client.Settings.{Setting, new_client, connect_server}
use libmqtt.Client.Settings.Valid.{made-IsValid, lt_int_irrefl}
use libmqtt.Client.Settings.Shared.{packet_at}
use libmqtt.Client.Connect.{
  Reply, gone, answered, stopped, Meets, Next, finished, crashed, again, next_delay, reconnect,
  retry, refused, established, on_reply, after_send, handshake, connect, attempts, following,
}

abbrev pub IsVersion : ℕ → Type 0
IsVersion v = (v ≡ v311) ⊎ (v ≡ v5)

module _ {w : World} (o : ConnectOptions w) where
  -- A version that there is, and a delay that is not above the largest.
  abbrev pub IsBounded : ℕ × ℤ → Type 0
  IsBounded (v, d) = IsVersion v × (lt_int o.max_delay d ≡ false)

  abbrev NextIsBounded : Next → Type 0
  NextIsBounded finished = Unit
  NextIsBounded crashed = Unit
  NextIsBounded (again v d) = IsBounded (v, d)

  next_delay_bound : (d : ℤ) → lt_int o.max_delay (next_delay o d) ≡ false
  unfolding next_delay
  next_delay_bound d = elim (Bool-cases (lt_int o.max_delay (w.scale d o.back_off_factor))) [
    | inl h ↦ rw h (lt_int_irrefl o.max_delay)
    | inr h ↦ rw h h
  ]

  if-NextIsBounded :
      (b : Bool) (x y : Next)
      → NextIsBounded x
      → NextIsBounded y
      → NextIsBounded (if b then x else y)
  if-NextIsBounded true x y h k = h
  if-NextIsBounded false x y h k = k

  module _ (m : Meets w) (v : ℕ) (d : ℤ) (packets : List ConnPacket) (h : IsVersion v)
      (k : lt_int o.max_delay d ≡ false) where
    reconnect-NextIsBounded : NextIsBounded (reconnect o m v d)
    reconnect-NextIsBounded = if-NextIsBounded m.timer_fires _ _ (h, next_delay_bound d) tt

    retry-NextIsBounded : NextIsBounded (retry o m v d)
    retry-NextIsBounded =
        if-NextIsBounded (o.auto_reconnect && not m.closing_retry) _ _ reconnect-NextIsBounded tt

    refused-NextIsBounded : (code : ℕ) → NextIsBounded (refused o m v d code).next
    refused-NextIsBounded code =
        elim (Bool-cases (ltb v311 v && o.proto_compromise && code == 132)) [
          | inl e ↦ rw e (ground (arith, h, e), k)
          | inr e ↦ rw e retry-NextIsBounded
        ]

    established-NextIsBounded : NextIsBounded (established o m v d).next
    established-NextIsBounded = elim (Bool-cases m.closing_after) [
      | inl e ↦ rw e tt
      | inr e ↦ elim (Bool-cases m.parent_exiting) [
        | inl e' ↦ rw (e, e') tt
        | inr e' ↦ rw (e, e') reconnect-NextIsBounded
      ]
    ]

    on_reply-NextIsBounded : (r : Reply) → NextIsBounded (on_reply o m v d r).next
    on_reply-NextIsBounded gone = retry-NextIsBounded
    on_reply-NextIsBounded stopped = retry-NextIsBounded
    on_reply-NextIsBounded (answered (conn_ack p)) = elim (Bool-cases (p.code == 0)) [
      | inl e ↦ rw e established-NextIsBounded
      | inr e ↦ rw e (refused-NextIsBounded p.code)
    ]
    on_reply-NextIsBounded (answered _) = retry-NextIsBounded

    after_send-NextIsBounded : (r : Result (Unit {0})) → NextIsBounded (after_send o m v d r).next
    after_send-NextIsBounded (ok u) = on_reply-NextIsBounded m.reply
    after_send-NextIsBounded (err e) = retry-NextIsBounded
    after_send-NextIsBounded panic = tt
    after_send-NextIsBounded stuck = tt

    handshake-NextIsBounded : (p : Option ConnPacket) → NextIsBounded (handshake o m v d p).next
    handshake-NextIsBounded none = tt
    handshake-NextIsBounded (some p) = after_send-NextIsBounded _

    connect-NextIsBounded : NextIsBounded (connect o m v d packets).next
    unfolding connect
    connect-NextIsBounded = elim (Option-cases m.dial_error) [
      | inr (f, e) ↦ rw e retry-NextIsBounded
      | inl e ↦ elim (Bool-cases m.closing_dialed) [
        | inl e' ↦ rw (e, e') tt
        | inr e' ↦ rw (e, e') (handshake-NextIsBounded (packet_at o.conn_packet packets))
      ]
    ]

  following_lem :
      (rest : ℕ → ℤ → List (ℕ × ℤ)) (n : Next)
      → NextIsBounded n
      → ((v : ℕ) (d : ℤ) → IsVersion v → lt_int o.max_delay d ≡ false → All IsBounded (rest v d))
      → All IsBounded (following rest n)
  following_lem rest finished h k = tt
  following_lem rest crashed h k = tt
  following_lem rest (again v d) h k = k v d h.0 h.1

  attempts_lem :
      (packets : List ConnPacket) (ms : List (Meets w)) (v : ℕ) (d : ℤ)
      → IsVersion v
      → lt_int o.max_delay d ≡ false
      → All IsBounded (attempts o packets ms v d)
  unfolding attempts
  attempts_lem packets [] v d h k = tt
  attempts_lem packets (m ∷ ms) v d h k = (
    (h, k),
    following_lem (attempts o packets ms) _ (connect-NextIsBounded m v d packets h k)
        (attempts_lem packets ms),
  )

-- However a client and one of its connections are set up, and whatever its attempts to connect meet:
-- each of them is made with version 3.1.1 or 5, and with a delay that is not above the largest.
pub attempts-IsBounded :
    {w : World} (xs ys : List (Setting w)) (c : AsyncClient w) (o : ConnectOptions w)
    (ms : List (Meets w))
    → new_client xs ≡ inr (c, o)
    → let r = connect_server ys c o in
      All
        (IsBounded r.options)
        (attempts r.options r.client.conn_packets ms r.options.proto_version r.options.first_delay)
attempts-IsBounded xs ys c o ms e =
    let r = connect_server ys c o in
    let h = (made-IsValid xs ys c o e).1 in
    attempts_lem r.options r.client.conn_packets ms r.options.proto_version r.options.first_delay
      h.version h.delays
