-- ===== src/Session/Client/Numbers.antt =====
-- client_async.go, `Publish`: the packets that it sends, told from its messages and a counter.
use libmqtt.Prelude.{
  ℕ, zero, suc, ◌+◌, ◌≡◌, Bool, true, false, List, [], ◌∷◌, ◌==◌, if◌then◌else◌, Option, none, some,
}
use libmqtt.Util.IdGenerator.{IdGenerator, get_extra}
use libmqtt.Packets.Types.{PublishPacket, Packet, publish}
use libmqtt.Session.Client.{set_object}

-- A QoS above 0 and no id yet.
abbrev pub needs_id : PublishPacket → Bool
needs_id p = if p.qos == 0 then false else p.packet_id == 0

abbrev pub with_number : Bool → ℕ → PublishPacket → PublishPacket
with_number true n p = record p { packet_id = n + 1 }
with_number false n p = p

abbrev pub counted : Bool → ℕ → ℕ
counted true n = n + 1
counted false n = n

-- A QoS of at most 2.
abbrev pub at_most_two : ℕ → ℕ
at_most_two zero = 0
at_most_two (suc zero) = 1
at_most_two _ = 2

abbrev pub limited : PublishPacket → PublishPacket
limited p = record p { qos = at_most_two p.qos }

-- The messages in front of the signal, by their objects, without the nil ones: each has a QoS of at
-- most 2 and, if it needs an id, the next number, with whether it did. An object that is given twice
-- keeps what it got.
unfoldable pub numbered :
    ℕ → List (Option ℕ × Bool) → (ℕ → PublishPacket) → List (Bool × PublishPacket)
numbered n [] f = []
numbered n ((none, stop) ∷ ps) f = numbered n ps f
numbered n ((some i, true) ∷ ps) f = []
numbered n ((some i, false) ∷ ps) f =
    let b = needs_id (limited (f i)) in
    let q = with_number b n (limited (f i)) in (b, q) ∷ numbered (counted b n) ps (set_object i q f)

-- A client that is closing sends none.
abbrev pub published :
    (closing : Bool)
    → ℕ
    → List (Option ℕ × Bool)
    → (ℕ → PublishPacket)
    → List (Bool × PublishPacket)
published true n ps f = []
published false n ps f = numbered n ps f

-- A number that a message has been given stands for the message with it.
abbrev pub IsKnown : Bool → PublishPacket → IdGenerator Packet → Type 0
IsKnown true q g = get_extra q.packet_id g ≡ some (publish q)
IsKnown false q g = Unit

unfoldable pub AreKnown : List (Bool × PublishPacket) → IdGenerator Packet → Type 0
AreKnown [] g = Unit
AreKnown ((b, q) ∷ qs) g = IsKnown b q g × AreKnown qs g

abbrev pub packets : List (Bool × PublishPacket) → List Packet
packets [] = []
packets ((b, q) ∷ qs) = publish q ∷ packets qs
