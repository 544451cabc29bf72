-- ===== src/Client/Dial/Host.antt =====
-- client_connector.go: the server name that TLS gets from an address.
use libmqtt.Prelude.{
  ◌≡◌, refl, [], ◌∷◌, ◌++◌, ◌==◌, false, none, some, All, ◌⊎◌, inl, inr, ap, Bool-cases, arith,
}
use libmqtt.Util.Bytes.{Bytes}
use libmqtt.Client.Dial.{before_last_colon, hostname}

abbrev pub HasNoColon : Bytes → Type 0
HasNoColon w = All (λ b. (b == b':') ≡ false) w

before_last_colon-none : (w : Bytes) → HasNoColon w → before_last_colon w ≡ none
unfolding before_last_colon
before_last_colon-none [] h = refl
before_last_colon-none (b ∷ w) (h, hs) = rw (before_last_colon-none w hs, h)

before_last_colon-append :
    (host port : Bytes) → HasNoColon port → before_last_colon (host ++ b':' ∷ port) ≡ some host
unfolding before_last_colon
before_last_colon-append [] port h = rw (before_last_colon-none port h) refl
before_last_colon-append (b ∷ host) port h = rw (before_last_colon-append host port h)

-- The server name for an address is the host, in front of the last colon, whatever colons the host has
-- of its own; an address without a port is a host.
pub hostname-append :
    (host port : Bytes)
    → HasNoColon port
    → (hostname (host ++ b':' ∷ port) ≡ host) × (hostname port ≡ port)
unfolding hostname
hostname-append host port h = (
  rw (hostname, before_last_colon-append host port h) refl,
  rw (hostname, before_last_colon-none port h) refl,
)

-- An address has a last colon, or none.
pub colon_or_none :
    (w : Bytes)
    → ((host : Bytes) × (port : Bytes) × HasNoColon port × (w ≡ host ++ b':' ∷ port)) ⊎ HasNoColon w
colon_or_none [] = inr tt
colon_or_none (b ∷ w) = elim (colon_or_none w) [
  | inl (host, port, h, e) ↦ inl (b ∷ host, port, h, ap (λ x. b ∷ x) e)
  | inr h ↦ elim (Bool-cases (b == b':')) [
    | inl e ↦ inl ([], w, h, ap (λ c. c ∷ w) (ground (arith, e)))
    | inr e ↦ inr (e, h)
  ]
]
