-- ===== src/Session/Client/Exchange.antt =====
-- client_async.go and client_conn.go: an exchange from `Publish` to the server's last answer.
use libmqtt.Prelude.{
  ℕ, ◌≡◌, refl, ◌∙◌, arith, ◌⊎◌, true, false, [], ◌∷◌, ◌++◌, ltb, ◌==◌, ==_refl, ltb-true, some,
}
use libmqtt.Util.Bytes.{Bytes}
use libmqtt.Util.IdGenerator.{IdGenerator, get_extra, used, set_used}
use libmqtt.Util.IdGenerator.Fresh.{candidate, next-candidate, lookup-insert}
use libmqtt.Packets.Types.{PublishPacket, Packet, publish}
use libmqtt.Persist.Method.{PersistMethod}
use libmqtt.Session.{Session}
use libmqtt.Session.Client.{publish_new, publish_one}

get_extra-set_used :
    (id : ℕ) (p : Packet) (g : IdGenerator Packet) → get_extra id (set_used id p g) ≡ some p
unfolding get_extra set_used
get_extra-set_used id p g = lookup-insert id id p g.used_ids ∙ rw ==_refl refl

module _ {M : Type 0} (api : PersistMethod M) (decimal : ℕ → Bytes) (p : PublishPacket)
    (s : Session M) where
  publish_new-candidate :
      used (candidate s.ids) s.ids ≡ false
      → let t = publish_new api decimal p s in
        let q = publish (record p { packet_id = candidate s.ids }) in
        (t.client_send ≡ s.client_send ++ q ∷ []) × (get_extra (candidate s.ids) t.ids ≡ some q)
  publish_new-candidate fresh =
      let found = next-candidate (publish (record p { packet_id = 0 })) s.ids 0 fresh in
      let below : ltb 0 (candidate s.ids) ≡ true = ltb-true 0 (candidate s.ids) found.1 in
      rw found.0 (refl, rw below (get_extra-set_used (candidate s.ids) _ _))

  publish_one-publish_new :
      p.packet_id ≡ 0
      → (p.qos ≡ 1) ⊎ (p.qos ≡ 2)
      → publish_one api decimal (some p) s ≡ publish_new api decimal p s
  unfolding publish_one
  publish_one-publish_new new qos =
      let low : ltb 2 p.qos ≡ false = ground (arith, qos) in
      let some_qos : (p.qos == 0) ≡ false = ground (arith, qos) in
      let no_id : (p.packet_id == 0) ≡ true = ground (arith, new) in rw (low, some_qos, no_id) refl

  -- A message of QoS 1 or 2 without an id goes out under the free candidate id, which stands for it.
  pub publish_one-candidate :
      p.packet_id ≡ 0
      → (p.qos ≡ 1) ⊎ (p.qos ≡ 2)
      → used (candidate s.ids) s.ids ≡ false
      → let t = publish_one api decimal (some p) s in
        let q = publish (record p { packet_id = candidate s.ids }) in
        (t.client_send ≡ s.client_send ++ q ∷ []) × (get_extra (candidate s.ids) t.ids ≡ some q)
  publish_one-candidate new qos fresh =
      rw (publish_one-publish_new new qos) (publish_new-candidate fresh)
