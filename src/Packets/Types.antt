-- ===== src/Packets/Types.antt =====
-- libmqtt.go and pkt_*.go: the packet types. A pointer to a property record is an `Option`.
use libmqtt.Prelude.{ℕ, Bool, List, ◌==◌, if◌then◌else◌, Option}
use libmqtt.Util.Bytes.{Bytes}
use libmqtt.Props.Conn.{WillProps, ConnProps, ConnAckProps, DisconnProps, AuthProps}
use libmqtt.Props.Pub.{PublishProps, ReasonProps}
use libmqtt.Props.Sub.{SubscribeProps, SubAckProps, UnsubProps, UnsubAckProps}

-- `ProtoVersion`; the zero value stands for version 3.1.1.
abbrev pub v311 : ℕ
v311 = 4

abbrev pub v5 : ℕ
v5 = 5

pub record Topic : Type 0 where
  pub name : Bytes
  pub qos : ℕ

pub record ConnPacket : Type 0 where
  pub proto_version : ℕ
  pub proto_name : Bytes
  pub clean_session : Bool
  pub is_will : Bool
  pub will_qos : ℕ
  pub will_retain : Bool
  pub will_props : Option WillProps
  pub props : Option ConnProps
  pub username : Bytes
  pub password : Bytes
  pub client_id : Bytes
  pub keepalive : ℕ
  pub will_topic : Bytes
  pub will_message : Bytes

pub record ConnAckPacket : Type 0 where
  pub proto_version : ℕ
  pub present : Bool
  pub code : ℕ
  pub props : Option ConnAckProps

pub record PublishPacket : Type 0 where
  pub payload : Bytes
  pub topic_name : Bytes
  pub props : Option PublishProps
  pub packet_id : ℕ
  pub proto_version : ℕ
  pub is_dup : Bool
  pub qos : ℕ
  pub is_retain : Bool

-- `PubAckPacket`; the packets of the other acknowledgements of PUBLISH have the same fields.
pub record AckPacket : Type 0 where
  pub proto_version : ℕ
  pub packet_id : ℕ
  pub code : ℕ
  pub props : Option ReasonProps

abbrev pub PubRecvPacket : Type 0
PubRecvPacket = AckPacket

abbrev pub PubRelPacket : Type 0
PubRelPacket = AckPacket

abbrev pub PubCompPacket : Type 0
PubCompPacket = AckPacket

pub record SubscribePacket : Type 0 where
  pub proto_version : ℕ
  pub packet_id : ℕ
  pub topics : List Topic
  pub props : Option SubscribeProps

pub record SubAckPacket : Type 0 where
  pub proto_version : ℕ
  pub packet_id : ℕ
  pub codes : Bytes
  pub props : Option SubAckProps

pub record UnsubPacket : Type 0 where
  pub proto_version : ℕ
  pub packet_id : ℕ
  pub topic_names : List Bytes
  pub props : Option UnsubProps

pub record UnsubAckPacket : Type 0 where
  pub proto_version : ℕ
  pub packet_id : ℕ
  pub props : Option UnsubAckProps

pub record DisconnPacket : Type 0 where
  pub proto_version : ℕ
  pub code : ℕ
  pub props : Option DisconnProps

pub record AuthPacket : Type 0 where
  pub proto_version : ℕ
  pub code : ℕ
  pub props : Option AuthProps

-- The interface `Packet`, by its implementations. A ping has nothing but its version.
pub data Packet : Type 0 where
  conn : ConnPacket → Packet
  conn_ack : ConnAckPacket → Packet
  publish : PublishPacket → Packet
  pub_ack : AckPacket → Packet
  pub_recv : PubRecvPacket → Packet
  pub_rel : PubRelPacket → Packet
  pub_comp : PubCompPacket → Packet
  subscribe : SubscribePacket → Packet
  sub_ack : SubAckPacket → Packet
  unsub : UnsubPacket → Packet
  unsub_ack : UnsubAckPacket → Packet
  ping_req ping_resp : ℕ → Packet
  disconn : DisconnPacket → Packet
  auth : AuthPacket → Packet

-- `Type()`.
unfoldable pub ctrl_type : Packet → ℕ
ctrl_type (conn p) = 1
ctrl_type (conn_ack p) = 2
ctrl_type (publish p) = 3
ctrl_type (pub_ack p) = 4
ctrl_type (pub_recv p) = 5
ctrl_type (pub_rel p) = 6
ctrl_type (pub_comp p) = 7
ctrl_type (subscribe p) = 8
ctrl_type (sub_ack p) = 9
ctrl_type (unsub p) = 10
ctrl_type (unsub_ack p) = 11
ctrl_type (ping_req v) = 12
ctrl_type (ping_resp v) = 13
ctrl_type (disconn p) = 14
ctrl_type (auth p) = 15

-- The field `ProtoVersion` of the embedded `BasePacket`.
unfoldable pub proto_version : Packet → ℕ
proto_version (conn p) = p.proto_version
proto_version (conn_ack p) = p.proto_version
proto_version (publish p) = p.proto_version
proto_version (pub_ack p) = p.proto_version
proto_version (pub_recv p) = p.proto_version
proto_version (pub_rel p) = p.proto_version
proto_version (pub_comp p) = p.proto_version
proto_version (subscribe p) = p.proto_version
proto_version (sub_ack p) = p.proto_version
proto_version (unsub p) = p.proto_version
proto_version (unsub_ack p) = p.proto_version
proto_version (ping_req v) = v
proto_version (ping_resp v) = v
proto_version (disconn p) = p.proto_version
proto_version (auth p) = p.proto_version

-- `Version()`: 0 stands for MQTT 3.1.1.
unfoldable pub version_of : ℕ → ℕ
version_of v = if v == 0 then v311 else v

unfoldable pub version : Packet → ℕ
unfolding proto_version version_of
version p = version_of (proto_version p)

unfoldable pub set_version : ℕ → Packet → Packet
set_version v (conn p) = conn (record p { proto_version = v })
set_version v (conn_ack p) = conn_ack (record p { proto_version = v })
set_version v (publish p) = publish (record p { proto_version = v })
set_version v (pub_ack p) = pub_ack (record p { proto_version = v })
set_version v (pub_recv p) = pub_recv (record p { proto_version = v })
set_version v (pub_rel p) = pub_rel (record p { proto_version = v })
set_version v (pub_comp p) = pub_comp (record p { proto_version = v })
set_version v (subscribe p) = subscribe (record p { proto_version = v })
set_version v (sub_ack p) = sub_ack (record p { proto_version = v })
set_version v (unsub p) = unsub (record p { proto_version = v })
set_version v (unsub_ack p) = unsub_ack (record p { proto_version = v })
set_version v (ping_req _) = ping_req v
set_version v (ping_resp _) = ping_resp v
set_version v (disconn p) = disconn (record p { proto_version = v })
set_version v (auth p) = auth (record p { proto_version = v })
