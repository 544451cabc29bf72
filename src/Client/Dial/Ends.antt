-- ===== src/Client/Dial/Ends.antt =====
-- client_connector.go, `tcpConnect`: every end of it.
use libmqtt.Prelude.{
  ℕ, ◌≡◌, arith, Bool, true, false, Option, none, some, inl, inr, ℤ, pos, Option-cases, [], ◌∷◌,
  ◌++◌, ◌≢◌, ◌⊎◌, refl,
}
use libmqtt.Util.Bytes.{Bytes}
use libmqtt.Client.Dial.Host.{HasNoColon, hostname-append, colon_or_none}
use libmqtt.Client.Dial.{
  hostname, Network, Meeting, DialError, fault, plain, secured, Outcome, named_config, shaken,
  secure, dialed, tcp_connect,
}

-- The name of the server in the address `host:port`, or in an address that has no port.
pub data IsHostOf : Bytes → Bytes → Type 0 where
  with_port : (host port : Bytes) → HasNoColon port → IsHostOf host (host ++ b':' ∷ port)
  alone : (host : Bytes) → HasNoColon host → IsHostOf host host

empty_or_not : (w : Bytes) → (w ≡ []) ⊎ (b : ℕ) × (bs : Bytes) × (w ≡ b ∷ bs)
empty_or_not [] = inl refl
empty_or_not (b ∷ bs) = inr (b, bs, refl)

-- The configuration itself, if it has a server name, and else with the host for its name.
pub data IsNamed (n : Network) (address : Bytes) : n.TlsConfig → n.TlsConfig → Type 0 where
  has_name : (c : n.TlsConfig) → n.server_name c ≢ [] → IsNamed n address c c
  has_host :
      (c : n.TlsConfig) (host : Bytes)
      → n.server_name c ≡ []
      → IsHostOf host address
      → IsNamed n address c (n.with_server_name host c)

-- What is returned is an open connection, with TLS if it is asked for, or an error, and no connection
-- is left open behind that.
pub data IsTidy {n : Network} (address : Bytes) : Option n.TlsConfig → Outcome n → Type 0 where
  as_plain : IsTidy address none (record { result = inr plain; opened = true; closed = false })
  as_secured :
      (c named : n.TlsConfig)
      → IsNamed n address c named
      → IsTidy address
          (some c)
          (record { result = inr (secured named); opened = true; closed = false })
  as_failed :
      (c : Option n.TlsConfig) (e : DialError n) (opened : Bool)
      → IsTidy address c (record { result = inl e; opened = opened; closed = opened })

hostname-IsHostOf : (address : Bytes) → IsHostOf (hostname address) address
hostname-IsHostOf address = elim (colon_or_none address) [
  | inl (host, port, h, e) ↦ rw (e, (hostname-append host port h).0) (with_port host port h)
  | inr h ↦ rw ((hostname-append [] address h).1) (alone address h)
]

module _ {n : Network} (address : Bytes) where
  named_config-IsNamed : (c : n.TlsConfig) → IsNamed n address c (named_config n address c)
  unfolding named_config
  named_config-IsNamed c = elim (empty_or_not (n.server_name c)) [
    | inl e ↦ rw e (has_host c (hostname address) e (hostname-IsHostOf address))
    | inr (b, bs, e) ↦ rw e (has_name c (λ h. cc))
  ]

module _ {n : Network} (m : Meeting n) (address : Bytes) where
  secure-IsTidy :
      (config : n.TlsConfig) (e : Option (DialError n))
      → IsTidy address (some config) (secure m (named_config n address config) e)
  secure-IsTidy config none = as_secured config _ (named_config-IsNamed address config)
  secure-IsTidy config (some e) = as_failed (some config) e true

  dialed-IsTidy :
      (timeout handshake_timeout : ℤ) (config : Option n.TlsConfig)
      → IsTidy address config (dialed m address timeout handshake_timeout config)
  dialed-IsTidy timeout handshake_timeout none = as_plain
  dialed-IsTidy timeout handshake_timeout (some config) = secure-IsTidy config _

  tcp_connect_ends :
      (timeout handshake_timeout : ℤ) (config : Option n.TlsConfig)
      → IsTidy address config (tcp_connect m address timeout handshake_timeout config)
  unfolding tcp_connect shaken
  tcp_connect_ends timeout handshake_timeout config = elim (Option-cases m.dial_error) [
    | inr (e, h) ↦ rw h (as_failed config (fault e) false)
    | inl h ↦ rw h (dialed-IsTidy timeout handshake_timeout config)
  ]

  -- Whatever dialing and the handshake meet, `tcpConnect` returns an open connection, with TLS under the
  -- name that was given or that of the host if TLS is asked for, or an error with no connection left
  -- open. Where there is no time for dialing, the time for the handshake makes no difference.
  pub tcp_connect-IsTidy :
      (timeout handshake_timeout : ℤ) (config : Option n.TlsConfig)
      → IsTidy address config (tcp_connect m address timeout handshake_timeout config)
        × (tcp_connect m address (pos 0) handshake_timeout config
            ≡ tcp_connect m address (pos 0) (pos 0) config)
  unfolding tcp_connect shaken
  tcp_connect-IsTidy timeout handshake_timeout config =
      (tcp_connect_ends timeout handshake_timeout config, ground arith)
