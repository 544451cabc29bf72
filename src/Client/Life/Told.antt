-- ===== src/Client/Life/Told.antt =====
-- client_async.go, `Destroy`: what every connection is told.
use libmqtt.Prelude.{
  ◌≡◌, refl, arith, ◌∙◌, [], ◌∷◌, ◌++◌, Bool, true, false, if◌then◌else◌, Option, none, some,
  bytes_eq, bytes_eq_sound, Bool-cases, inl, inr,
}
use mathlib.Core.Path.{subst}
use libmqtt.Util.Bytes.{Bytes}
use libmqtt.Util.Names.{ByName, named, named-with_name}
use libmqtt.Packets.Types.{disconn}
use libmqtt.Client.Life.{
  Link, Life, or_empty_packet, told, keys_of, disconnected, disconnect, disconnect_all, destroy,
}

-- No name twice, as in every map.
abbrev pub IsMap : ByName Link → Type 0
IsMap [] = Unit
IsMap ((k, l) ∷ t) = (named k t ≡ none) × IsMap t

-- The link with a DISCONNECT behind what it was sent, and marked as one that the client ends.
abbrev pub told_too : Option Link → Option Link
told_too none = none
told_too (some l) = some (record {
  parent_exit = true;
  logic_send = l.logic_send ++ disconn (record { proto_version = 0; code = 0; props = none }) ∷ [];
})

-- `o`, told if the name is one of the table.
abbrev told_if : Option Link → Option Link → Option Link
told_if none o = o
told_if (some l) o = told_too o

told_if-same : (o : Option Link) → told_if o o ≡ told_too o
told_if-same none = refl
told_if-same (some l) = refl

module _ (ends_first : Bytes → Bool) where
  named-disconnected :
      (server j : Bytes) (o : Option Link) (a : Life)
      → named server a.links ≡ o
      → named j (disconnected ends_first server (or_empty_packet none) o a).0.links
        ≡ (if bytes_eq server j then told_too (named j a.links) else named j a.links)
  named-disconnected server j none a e = ground (arith, bytes_eq_sound server j)
  named-disconnected server j (some l) a e =
      named-with_name server j (told (or_empty_packet none) l) a.links
      ∙ ground (arith, bytes_eq_sound server j, e)

  named-disconnect_all :
      (t : ByName Link) (j : Bytes) (a : Life)
      → IsMap t
      → named j (disconnect_all ends_first (keys_of t) a).links
        ≡ told_if (named j t) (named j a.links)
  unfolding disconnect_all named
  named-disconnect_all [] j a m = refl
  named-disconnect_all ((k, l) ∷ t) j a m =
      let a' = (disconnect ends_first k none a).0 in
      let one : named j a'.links
          ≡ (if bytes_eq k j then told_too (named j a.links) else named j a.links) =
        unfold disconnect in named-disconnected k j (named k a.links) a refl in
      named-disconnect_all t j a' m.1 ∙ (elim (Bool-cases (bytes_eq k j)) [
        | inl e ↦
            let gone : named j t ≡ none =
              subst (λ x. named x t ≡ none) (bytes_eq_sound k j e) m.0 in
            rw (one, e, gone) refl
        | inr e ↦ rw (one, e) refl
      ])

  -- A client that is destroyed without force has sent a DISCONNECT to each of its connections, behind
  -- what it was sent before, and marked it as one that the client ends; the client is closing then.
  pub destroy-told :
      (a : Life) (j : Bytes)
      → IsMap a.links
      → (named j (destroy ends_first false a).links ≡ told_too (named j a.links))
        × ((destroy ends_first false a).closing ≡ true)
  unfolding destroy
  destroy-told a j m = (named-disconnect_all a.links j a m ∙ told_if-same (named j a.links), refl)
