-- ===== src/Bindings/Calls.antt =====
-- c/libmqtt_c.go: the functions that act on a client.
use libmqtt.Prelude.{ℕ, Bool, List, [], ◌∷◌, Option, none, some, ℤ}
use libmqtt.Util.Bytes.{Bytes}
use libmqtt.Packets.Types.{Topic, PublishPacket}
use libmqtt.Client.{World, AsyncClient}
use libmqtt.Bindings.{Bindings, get_client}
use libmqtt.Bindings.Options.{to_uint}
use libmqtt.Bindings.Callbacks.{
  Called, conn_callback, pub_callback, sub_callback, unsub_callback, net_callback, persist_callback,
  wrap_topic_handler,
}

-- The methods of a client that are called, with the functions that they are handed, over a state `S` of everything that they change.
pub record Methods (w : World) (S : Type 0) : Type 0 where
  pub subscribe : AsyncClient w → List Topic → S → S
  pub publish : AsyncClient w → List (Option PublishPacket) → S → S
  pub unsubscribe : AsyncClient w → List Bytes → S → S
  pub wait : AsyncClient w → S → S
  pub destroy : AsyncClient w → Bool → S → S
  pub handle : AsyncClient w → Bytes → (Bytes → ℕ → Bytes → Called) → S → S
  pub connect : AsyncClient w → (Bytes → ℕ → Option Bytes → Called) → S → S
  pub handle_pub : AsyncClient w → (Bytes → Option Bytes → Called) → S → S
  pub handle_sub : AsyncClient w → (List Topic → Option Bytes → Called) → S → S
  pub handle_unsub : AsyncClient w → (List Bytes → Option Bytes → Called) → S → S
  pub handle_net : AsyncClient w → (Bytes → Option Bytes → Called) → S → S
  pub handle_persist : AsyncClient w → (Option Bytes → Called) → S → S

-- `if c := getClient(int(client)); c != nil`.
abbrev pub if_there :
    {w : World} {S : Type 0} → Option (AsyncClient w) → (AsyncClient w → S → S) → S → S
if_there none f s = s
if_there (some c) f s = f c s

module _ {w : World} {S : Type 0} (methods : Methods w S) (b : Bindings w) (id : ℤ) where
  unfoldable pub subscribe : Bytes → ℤ → S → S
  subscribe topic qos =
      if_there (get_client id b)
        λ c. methods.subscribe c (record { name = topic; qos = to_uint 8 qos } ∷ [])

  unfoldable pub publish : Bytes → ℤ → Bytes → S → S
  publish topic qos payload = if_there (get_client id b) λ c. methods.publish c (
      some (record {
        payload = payload;
        topic_name = topic;
        props = none;
        packet_id = 0;
        proto_version = 0;
        is_dup = Bool.false;
        qos = to_uint 8 qos;
        is_retain = Bool.false;
      })
      ∷ [])

  unfoldable pub unsubscribe : Bytes → S → S
  unsubscribe topic = if_there (get_client id b) λ c. methods.unsubscribe c (topic ∷ [])

  unfoldable pub wait : S → S
  wait = if_there (get_client id b) methods.wait

  unfoldable pub destroy : Bool → S → S
  destroy force = if_there (get_client id b) λ c. methods.destroy c force

  -- The handlers, by whether there is one.
  unfoldable pub handle : Bytes → Bool → S → S
  handle topic there =
      if_there (get_client id b) λ c. methods.handle c topic (wrap_topic_handler there id)

  unfoldable pub connect : Bool → S → S
  connect there = if_there (get_client id b) λ c. methods.connect c (conn_callback there id)

  unfoldable pub set_pub_handler : Bool → S → S
  set_pub_handler there =
      if_there (get_client id b) λ c. methods.handle_pub c (pub_callback there id)

  unfoldable pub set_sub_handler : Bool → S → S
  set_sub_handler there =
      if_there (get_client id b) λ c. methods.handle_sub c (sub_callback there id)

  unfoldable pub set_unsub_handler : Bool → S → S
  set_unsub_handler there =
      if_there (get_client id b) λ c. methods.handle_unsub c (unsub_callback there id)

  unfoldable pub set_net_handler : Bool → S → S
  set_net_handler there =
      if_there (get_client id b) λ c. methods.handle_net c (net_callback there id)

  unfoldable pub set_persist_handler : Bool → S → S
  set_persist_handler there =
      if_there (get_client id b) λ c. methods.handle_persist c (persist_callback there id)
