-- ===== src/Props/Pub.antt =====
-- pkt_pub.go: the properties of PUBLISH, and those of its four acknowledgements, whose types have the
-- same two fields.
use libmqtt.Prelude.{
  ℕ, zero, suc, List, [], ◌∷◌, ◌++◌, length, drop, ℤ, pos, Option, none, some, Result, ok, stuck,
  ◌>>=◌,
}
use libmqtt.Keys
use libmqtt.Util.Bytes.{Bytes}
use libmqtt.Util.VarInt.{get_remain_length}
use libmqtt.Util.RawProps.{RawProps, raw_get}
use libmqtt.Util.UserData.{UserProps}
use libmqtt.Props.Defs.{
  text, binary, u8, u16, u32, user, bytes, set, set_all, set_bytes, add_each, read_u32, read_u16,
  read_byte, read_text, read_binary, read_user,
}

pub record PublishProps : Type 0 where
  pub correlation_data : Bytes
  pub sub_ids : List ℤ
  pub resp_topic : Bytes
  pub content_type : Bytes
  pub user_props : UserProps
  pub message_expiry_interval : ℕ
  pub topic_alias : ℕ
  pub payload_format : ℕ

abbrev pub new_publish_props : PublishProps
new_publish_props = record {
  correlation_data = [];
  sub_ids = [];
  resp_topic = [];
  content_type = [];
  user_props = [];
  message_expiry_interval = 0;
  topic_alias = 0;
  payload_format = 0;
}

unfoldable pub publish_props : Option PublishProps → Result Bytes
publish_props none = ok []
publish_props (some p) = do
  s ←
      set_all
        ((Keys.payload_format_indicator, u8 p.payload_format)
          ∷ (Keys.message_expiry_interval, u32 p.message_expiry_interval)
          ∷ (Keys.topic_alias, u16 p.topic_alias)
          ∷ (Keys.resp_topic, text p.resp_topic)
          ∷ (Keys.correlation_data, binary p.correlation_data)
          ∷ (Keys.user_props, user p.user_props)
          ∷ [])
        []
  s' ← add_each Keys.sub_id p.sub_ids s
  s'' ← set Keys.content_type (text p.content_type) s'
  ok (bytes s'')

-- `for i := 0; i < len(v)`: a number that cannot be read moves `i` by 0, and the loop goes on for
-- ever, which the fuel (the length of `v`) turns into `stuck`.
unfoldable pub sub_ids_loop : ℕ → Bytes → List ℤ → Result (List ℤ)
sub_ids_loop fuel [] ids = ok ids
sub_ids_loop zero (b ∷ bs) ids = stuck
sub_ids_loop (suc fuel) (b ∷ bs) ids =
    let r = get_remain_length (b ∷ bs) in
    sub_ids_loop fuel (drop r.byte_count (b ∷ bs)) (ids ++ pos r.value ∷ [])

unfoldable pub read_sub_ids : ℕ → List ℤ → RawProps → Result (List ℤ)
unfolding sub_ids_loop
read_sub_ids key old props = elim (raw_get key props) [
  | none ↦ ok old
  | some v ↦ sub_ids_loop (length v) v []
]

unfoldable pub set_publish_props : RawProps → PublishProps → Result PublishProps
set_publish_props props p = do
  message_expiry_interval ← read_u32 Keys.message_expiry_interval p.message_expiry_interval props
  topic_alias ← read_u16 Keys.topic_alias p.topic_alias props
  resp_topic ← read_text Keys.resp_topic p.resp_topic props
  correlation_data ← read_binary Keys.correlation_data p.correlation_data props
  user_props ← read_user Keys.user_props p.user_props props
  sub_ids ← read_sub_ids Keys.sub_id p.sub_ids props
  content_type ← read_text Keys.content_type p.content_type props
  ok (record p {
    payload_format = read_byte Keys.payload_format_indicator p.payload_format props;
    message_expiry_interval = message_expiry_interval;
    topic_alias = topic_alias;
    resp_topic = resp_topic;
    correlation_data = correlation_data;
    user_props = user_props;
    sub_ids = sub_ids;
    content_type = content_type;
  })

-- `PubAckProps`. `PubRecvProps`, `PubRelProps` and `PubCompProps` have the same fields and the same
-- methods, and so have `SubAckProps` and `UnsubAckProps` but for `props`.
pub record ReasonProps : Type 0 where
  pub reason : Bytes
  pub user_props : UserProps

abbrev pub new_reason_props : ReasonProps
new_reason_props = record { reason = []; user_props = [] }

unfoldable pub reason_props : Option ReasonProps → Result Bytes
reason_props none = ok []
reason_props (some p) =
    set_bytes ((Keys.reason_string, text p.reason) ∷ (Keys.user_props, user p.user_props) ∷ [])

unfoldable pub set_reason_props : RawProps → ReasonProps → Result ReasonProps
set_reason_props props p = do
  reason ← read_text Keys.reason_string p.reason props
  user_props ← read_user Keys.user_props p.user_props props
  ok (record { reason = reason; user_props = user_props })

abbrev pub PubRecvProps : Type 0
PubRecvProps = ReasonProps

abbrev pub pub_recv_props : Option PubRecvProps → Result Bytes
pub_recv_props = reason_props

abbrev pub set_pub_recv_props : RawProps → PubRecvProps → Result PubRecvProps
set_pub_recv_props = set_reason_props

abbrev pub PubRelProps : Type 0
PubRelProps = ReasonProps

abbrev pub pub_rel_props : Option PubRelProps → Result Bytes
pub_rel_props = reason_props

abbrev pub set_pub_rel_props : RawProps → PubRelProps → Result PubRelProps
set_pub_rel_props = set_reason_props

abbrev pub PubCompProps : Type 0
PubCompProps = ReasonProps

abbrev pub pub_comp_props : Option PubCompProps → Result Bytes
pub_comp_props = reason_props

abbrev pub set_pub_comp_props : RawProps → PubCompProps → Result PubCompProps
set_pub_comp_props = set_reason_props
