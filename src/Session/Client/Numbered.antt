-- ===== src/Session/Client/Numbered.antt =====
-- client_async.go, `Publish`: the ids of its messages, and the order in which they go out.
use libmqtt.Prelude.{
  zero, Bool-cases, inl, inr, ◌<◌, ℕ, suc, ◌+◌, ◌<◌, ◌≤◌, ◌≡◌, refl, ◌∙◌, sym, arith, Bool, true,
  false, List, [], ◌∷◌, ◌++◌, length, ◌==◌, if◌then◌else◌, Option, none, some, ap, ltb, ltb-true,
  ==_refl, append_assoc, append-nil,
}
use libmqtt.Util.Bytes.{Bytes}
use libmqtt.Util.IdGenerator.{IdGenerator, get_extra, used, is_some}
use libmqtt.Util.IdGenerator.Ready.{
  IsReady, IsReady-fewer, IsNumbered, next-IsNumbered, point_to-IsNumbered,
}
use libmqtt.Packets.Types.{PublishPacket, Packet, publish}
use libmqtt.Persist.Method.{PersistMethod}
use libmqtt.Session.{Session}
use libmqtt.Session.Client.Numbers.{
  at_most_two, limited, needs_id, with_number, counted, published, numbered, IsKnown, AreKnown,
  packets,
}
use libmqtt.Session.Client.{
  capped, publish_new, publish_capped, publish_one, publish_until, publish_msgs, put_on, set_object,
  object_after,
}

two_above : (q : ℕ) → 2 < q → at_most_two q ≡ 2
two_above zero h = absurd (omega arith)
two_above (suc zero) h = absurd (omega arith)
two_above (suc (suc q)) h = refl

same_below : (q : ℕ) → q ≤ 2 → at_most_two q ≡ q
same_below zero h = refl
same_below (suc zero) h = refl
same_below (suc (suc zero)) h = refl
same_below (suc (suc (suc q))) h = absurd (omega arith)

capped-limited : (p : PublishPacket) → capped p ≡ limited p
capped-limited p = elim (Bool-cases (ltb 2 p.qos)) [
  | inl e ↦ rw e (ap (λ q. record p { qos = q }) (sym (two_above p.qos (ground (arith, e)))))
  | inr e ↦ rw e (ap (λ q. record p { qos = q }) (sym (same_below p.qos (ground (arith, e)))))
]

module _ {M : Type 0} (api : PersistMethod M) (decimal : ℕ → Bytes) where
  -- A message goes out in a session with its number, if it needs one.
  record GoesOut (n : ℕ) (q : PublishPacket) (s t : Session M) : Type 0 where
    sent : t.client_send ≡ s.client_send ++ publish q ∷ []
    generator : IsNumbered n (publish q) s.ids t.ids

  publish_new-GoesOut :
      (n k : ℕ) (p : PublishPacket) (s : Session M)
      → IsReady n (suc k) s.ids
      → GoesOut n (record p { packet_id = n + 1 }) s (publish_new api decimal p s)
  publish_new-GoesOut n k p s r =
      let (i, h) = next-IsNumbered n k (publish (record p { packet_id = 0 })) s.ids r in
      let positive : ltb 0 (n + 1) ≡ true = ltb-true 0 (n + 1) (omega arith) in
      rw i (record { sent = refl; generator = rw positive (point_to-IsNumbered n _ _ s.ids _ h) })

  -- One message, by whether it needs an id.
  abbrev one : Bool → PublishPacket → Session M → Session M
  one true q s = publish_new api decimal q s
  one false q s = put_on (publish q) s

  chosen :
      (zero_qos no_id : Bool) (q : PublishPacket) (s : Session M)
      → (if zero_qos
          then put_on (publish q) s
          else (if no_id then publish_new api decimal q s else put_on (publish q) s))
        ≡ one (if zero_qos then false else no_id) q s
  chosen true no_id q s = refl
  chosen false true q s = refl
  chosen false false q s = refl

  publish_capped-one :
      (q : PublishPacket) (s : Session M) → publish_capped api decimal q s ≡ one (needs_id q) q s
  publish_capped-one q s = chosen (q.qos == 0) (q.packet_id == 0) q s

  publish_one-one :
      (p : PublishPacket) (s : Session M)
      → publish_one api decimal (some p) s ≡ one (needs_id (limited p)) (limited p) s
  unfolding publish_one
  publish_one-one p s =
      publish_capped-one (capped p) s ∙ ap (λ q. one (needs_id q) q s) (capped-limited p)

  -- What one message does, with `k` messages behind it.
  record Step (b : Bool) (n k : ℕ) (q : PublishPacket) (s t : Session M) : Type 0 where
    sent : t.client_send ≡ s.client_send ++ publish (with_number b n q) ∷ []
    ready : IsReady (counted b n) k t.ids
    known : IsKnown b (with_number b n q) t.ids
    old : (j : ℕ) → j ≤ n → get_extra j t.ids ≡ get_extra j s.ids

  GoesOut-old :
      (n : ℕ) (q : PublishPacket) (s t : Session M)
      → GoesOut n q s t
      → (j : ℕ) → (n + 1 == j) ≡ false
      → get_extra j t.ids ≡ get_extra j s.ids
  GoesOut-old n q s t h j other =
      h.generator.meaning j ∙ ap (λ b. if b then some (publish q) else get_extra j s.ids) other

  GoesOut-Step :
      (n k : ℕ) (p : PublishPacket) (s t : Session M)
      → IsReady n (suc k) s.ids
      → GoesOut n (record p { packet_id = n + 1 }) s t
      → Step true n k p s t
  unfolding used
  GoesOut-Step n k p s t r h =
      let small : n + suc k < 65536 = r.bounded in
      record {
        sent = h.sent;
        ready = record {
          at = h.generator.counter;
          bounded = omega arith;
          spare = λ j above below.
              ap is_some (GoesOut-old n _ s t h j (ground (arith, above)))
              ∙ r.spare j (omega arith) (omega arith);
        };
        known =
            h.generator.meaning (n + 1)
            ∙ ap (λ b. if b then some (publish (with_number true n p)) else get_extra (n + 1) s.ids)
                (==_refl (n + 1));
        old = λ j below. GoesOut-old n _ s t h j (ground (arith, below));
      }

  one-Step :
      (b : Bool) (n k : ℕ) (q : PublishPacket) (s : Session M)
      → IsReady n (suc k) s.ids
      → Step b n k q s (one b q s)
  one-Step true n k q s r = GoesOut-Step n k q s _ r (publish_new-GoesOut n k q s r)
  one-Step false n k q s r = record {
    sent = refl;
    ready = IsReady-fewer n k s.ids r;
    known = tt;
    old = λ j below. refl;
  }

  object_by :
      (zero_qos no_id : Bool) (p q : PublishPacket)
      → (if zero_qos then p else (if no_id then q else p))
        ≡ (if (if zero_qos then false else no_id) then q else p)
  object_by true no_id p q = refl
  object_by false true p q = refl
  object_by false false p q = refl

  numbered_if :
      (b : Bool) (n : ℕ) (q : PublishPacket)
      → (if b then record q { packet_id = n + 1 } else q) ≡ with_number b n q
  numbered_if true n q = refl
  numbered_if false n q = refl

  object_after-with_number :
      (n k : ℕ) (q : PublishPacket) (s : Session M)
      → IsReady n (suc k) s.ids
      → object_after api decimal q s ≡ with_number (needs_id q) n q
  object_after-with_number n k q s r =
      let (i, h) = next-IsNumbered n k (publish (record q { packet_id = 0 })) s.ids r in
      object_by (q.qos == 0) (q.packet_id == 0) q _
      ∙ ap (λ id. if needs_id q then record q { packet_id = id } else q) i
      ∙ numbered_if (needs_id q) n q

  -- What a call does.
  record Outcome (n : ℕ) (qs : List (Bool × PublishPacket)) (s t : Session M) : Type 0 where
    pub sent : t.client_send ≡ s.client_send ++ packets qs
    pub known : AreKnown qs t.ids
    pub old : (j : ℕ) → j ≤ n → get_extra j t.ids ≡ get_extra j s.ids

  IsKnown-old :
      (b : Bool) (n : ℕ) (q : PublishPacket) (g h : IdGenerator Packet)
      → IsKnown b (with_number b n q) g
      → ((j : ℕ) → j ≤ counted b n → get_extra j h ≡ get_extra j g)
      → IsKnown b (with_number b n q) h
  IsKnown-old true n q g h k old = old (n + 1) (omega arith) ∙ k
  IsKnown-old false n q g h k old = tt

  counted_above : (b : Bool) (n : ℕ) → n ≤ counted b n
  counted_above true n = omega arith
  counted_above false n = omega arith

  Step-Outcome :
      (b : Bool) (n k : ℕ) (q : PublishPacket) (qs : List (Bool × PublishPacket))
      (s t u : Session M)
      → Step b n k q s t
      → Outcome (counted b n) qs t u
      → Outcome n ((b, with_number b n q) ∷ qs) s u
  unfolding AreKnown
  Step-Outcome b n k q qs s t u h o = record {
    sent = o.sent ∙ ap (λ ps. ps ++ packets qs) h.sent ∙ append_assoc s.client_send _ _;
    known = (IsKnown-old b n q t.ids u.ids h.known o.old, o.known);
    old = λ j below. o.old j (omega (arith, counted_above b n, below)) ∙ h.old j below;
  }

  nothing_sent :
      (n : ℕ) (s t : Session M)
      → t.client_send ≡ s.client_send
      → ((j : ℕ) → j ≤ n → get_extra j t.ids ≡ get_extra j s.ids)
      → Outcome n [] s t
  unfolding AreKnown
  nothing_sent n s t e old = record {
    sent = e ∙ sym (append-nil s.client_send);
    known = tt;
    old = old;
  }

  publish_until-Outcome :
      (ps : List (Option ℕ × Bool)) (f : ℕ → PublishPacket) (n : ℕ) (s : Session M)
      → IsReady n (length ps) s.ids
      → Outcome n (numbered n ps f) s (publish_until api decimal ps f s)
  unfolding publish_until numbered
  publish_until-Outcome [] f n s r = nothing_sent n s s refl (λ j below. refl)
  publish_until-Outcome ((none, stop) ∷ ps) f n s r =
      publish_until-Outcome ps f n s (IsReady-fewer n (length ps) s.ids r)
  publish_until-Outcome ((some i, true) ∷ ps) f n s r =
      let q = limited (f i) in
      let h = one-Step (needs_id q) n (length ps) q s r in
      rw (publish_one-one (f i) s) (nothing_sent n s _ refl h.old)
  publish_until-Outcome ((some i, false) ∷ ps) f n s r =
      let q = limited (f i) in
      let b = needs_id q in
      let h = one-Step b n (length ps) q s r in
      let object : object_after api decimal (capped (f i)) s ≡ with_number b n q =
        ap (λ p. object_after api decimal p s) (capped-limited (f i))
        ∙ object_after-with_number n (length ps) q s r in
      rw (publish_one-one (f i) s, object)
        (Step-Outcome b n (length ps) q _ s _ _ h
          (publish_until-Outcome ps (set_object i (with_number b n q) f) (counted b n) _ h.ready))

  publish_msgs-Outcome :
      (closing : Bool) (ps : List (Option ℕ × Bool)) (f : ℕ → PublishPacket) (n : ℕ) (s : Session M)
      → IsReady n (length ps) s.ids
      → Outcome n (published closing n ps f) s (publish_msgs api decimal closing ps f s)
  unfolding publish_msgs
  publish_msgs-Outcome true ps f n s r = nothing_sent n s s refl (λ j below. refl)
  publish_msgs-Outcome false ps f n s r = publish_until-Outcome ps f n s r

  -- If the counter of the generator is at `n`, and the ids behind it, as many as there are messages, are
  -- below 65536 and not in use, then `Publish` puts the messages on the channel in their order, up to
  -- the one where the client is closed, or none where it is closing before. A nil one is left out, a
  -- QoS above 2 is 2, and those of QoS 1 or 2 without an id have the ids behind `n` one by one, where a
  -- message that is given again keeps its id. Each id that is given then stands for its message.
  pub publish_msgs-numbered :
      (closing : Bool) (ps : List (Option ℕ × Bool)) (f : ℕ → PublishPacket) (n : ℕ) (s : Session M)
      → IsReady n (length ps) s.ids
      → let t = publish_msgs api decimal closing ps f s in
        let qs = published closing n ps f in
        (t.client_send ≡ s.client_send ++ packets qs) × AreKnown qs t.ids
  publish_msgs-numbered closing ps f n s r =
      let o = publish_msgs-Outcome closing ps f n s r in (o.sent, o.known)
