-- ===== src/Client/Dial.antt =====
-- client_connector.go, `tcpConnect`, over what the network and the TLS handshake give.
pub mod Host
pub mod Ends
use libmqtt.Prelude.{
  ℕ, Bool, true, false, ◌&&◌, not, List, [], ◌∷◌, ◌++◌, ◌==◌, if◌then◌else◌, Option, none, some,
  ◌⊎◌, inl, inr, ℤ, pos, negsuc,
}
use libmqtt.Util.Bytes.{Bytes}
use libmqtt.Packets.Write.{is_empty}

-- The packages net and tls: their errors, their configurations, and the server name in one. The last
-- sets it in a clone.
pub record Network : Type 1 where
  pub Fault : Type 0
  pub TlsConfig : Type 0
  pub server_name : TlsConfig → Bytes
  pub with_server_name : Bytes → TlsConfig → TlsConfig

-- What an attempt meets: whether the address can be dialed, the error of the handshake with a
-- configuration, and whether the timer of the handshake, if there is one, is faster.
pub record Meeting (n : Network) : Type 0 where
  pub dial_error : Option n.Fault
  pub handshake_error : n.TlsConfig → Option n.Fault
  pub timer_first : Bool

pub data DialError (n : Network) : Type 0 where
  fault : n.Fault → DialError n
  tls_timeout : DialError n

-- The connection that is returned, which may go through TLS.
pub data Dialed (n : Network) : Type 0 where
  plain : Dialed n
  secured : n.TlsConfig → Dialed n

-- What is returned, and whether the connection below has been opened and closed.
pub record Outcome (n : Network) : Type 0 where
  pub result : DialError n ⊎ Dialed n
  pub opened : Bool
  pub closed : Bool

-- `address[:strings.LastIndex(address, ":")]`, if there is a colon.
unfoldable pub before_last_colon : Bytes → Option Bytes
before_last_colon [] = none
before_last_colon (b ∷ bs) = elim (before_last_colon bs) [
  | some host ↦ some (b ∷ host)
  | none ↦ if b == b':' then some [] else none
]

unfoldable pub hostname : Bytes → Bytes
hostname address = elim (before_last_colon address) [ some host ↦ host | none ↦ address ]

abbrev pub is_zero : ℤ → Bool
is_zero (pos n) = n == 0
is_zero (negsuc n) = false

unfoldable pub named_config : (n : Network) → Bytes → n.TlsConfig → n.TlsConfig
named_config n address config =
    if is_empty (n.server_name config) then n.with_server_name (hostname address) config else config

module _ {n : Network} where
  abbrev pub as_fault : Option n.Fault → Option (DialError n)
  as_fault none = none
  as_fault (some e) = some (fault e)

  module _ (m : Meeting n) where
    -- The first error of the channel, or that of the handshake alone where there is no time to dial in.
    unfoldable pub shaken : ℤ → ℤ → n.TlsConfig → Option (DialError n)
    shaken timeout handshake_timeout config =
        if is_zero timeout
        then as_fault (m.handshake_error config)
        else if not (is_zero handshake_timeout) && m.timer_first
        then some tls_timeout
        else as_fault (m.handshake_error config)

    abbrev pub secure : n.TlsConfig → Option (DialError n) → Outcome n
    secure config none = record { result = inr (secured config); opened = true; closed = false }
    secure config (some e) = record { result = inl e; opened = true; closed = true }

    abbrev pub dialed : Bytes → ℤ → ℤ → Option n.TlsConfig → Outcome n
    dialed address timeout handshake_timeout none = record {
      result = inr plain;
      opened = true;
      closed = false;
    }
    dialed address timeout handshake_timeout (some config) =
        let named = named_config n address config in
        secure named (shaken timeout handshake_timeout named)

    unfoldable pub tcp_connect : Bytes → ℤ → ℤ → Option n.TlsConfig → Outcome n
    tcp_connect address timeout handshake_timeout config = elim m.dial_error [
      | some e ↦ record { result = inl (fault e); opened = false; closed = false }
      | none ↦ dialed address timeout handshake_timeout config
    ]

-- `websocketConnect`: the URL that is dialed.
abbrev pub schema : Bool → Bytes
schema false = b'w' ∷ b's' ∷ []
schema true = b'w' ∷ b's' ∷ b's' ∷ []

unfoldable pub url_of : {A : Type 0} → Option A → Bytes → Bytes
url_of none address = schema false ++ b':' ∷ b'/' ∷ b'/' ∷ address
url_of (some config) address = schema true ++ b':' ∷ b'/' ∷ b'/' ∷ address
