-- ===== src/Props/Sub.antt =====
-- pkt_sub.go: the properties of SUBSCRIBE, SUBACK, UNSUBSCRIBE and UNSUBACK.
use libmqtt.Prelude.{
  ℕ, Bool, false, List, [], ◌∷◌, ◌++◌, ltb, if◌then◌else◌, length, ℤ, pos, negsuc, Option, none,
  some, Result, ok, err, panic, stuck, ◌>>=◌, ◌==◌,
}
use libmqtt.Keys
use libmqtt.Util.Bytes.{Bytes}
use libmqtt.Util.VarInt.{get_remain_length, var_int_bytes}
use libmqtt.Util.RawProps.{RawProps, raw_get}
use libmqtt.Util.UserData.{UserProps, encode_to}
use libmqtt.Props.Defs.{PropValue, text, user, set_bytes, read_user}
use libmqtt.Props.Pub.{ReasonProps, set_reason_props}

pub record SubscribeProps : Type 0 where
  pub sub_id : ℤ
  pub user_props : UserProps

abbrev pub new_subscribe_props : SubscribeProps
new_subscribe_props = record { sub_id = pos 0; user_props = [] }

abbrev is_zero : ℤ → Bool
is_zero (pos n) = n == 0
is_zero (negsuc n) = false

-- `subIDBytes, _ := varIntBytes(...)`: nil on an error.
abbrev or_empty : Result Bytes → Result Bytes
or_empty (ok b) = ok b
or_empty (err e) = ok []
or_empty panic = panic
or_empty stuck = stuck

-- The only properties that do not pass through a `propertySet`. The key of the user properties is
-- written once, whatever their number.
unfoldable pub subscribe_props : Option SubscribeProps → Result Bytes
subscribe_props none = ok []
subscribe_props (some s) = do
  id ← or_empty (var_int_bytes s.sub_id)
  let front = if is_zero s.sub_id then [] else Keys.sub_id ∷ id
  let back = if ltb 0 (length s.user_props) then Keys.user_props ∷ encode_to s.user_props else []
  ok (front ++ back)

unfoldable pub read_sub_id : ℕ → ℤ → RawProps → ℤ
read_sub_id key old props = elim (raw_get key props) [
  | none ↦ old
  | some v ↦ pos (get_remain_length v).value
]

unfoldable pub set_subscribe_props : RawProps → SubscribeProps → Result SubscribeProps
set_subscribe_props props s = do
  user_props ← read_user Keys.user_props s.user_props props
  ok (record { sub_id = read_sub_id Keys.sub_id s.sub_id props; user_props = user_props })

abbrev present : ℕ → PropValue → ℕ → List (ℕ × PropValue)
present key value n = if ltb 0 n then (key, value) ∷ [] else []

abbrev pub SubAckProps : Type 0
SubAckProps = ReasonProps

-- A field is set only where it is there.
unfoldable pub sub_ack_props : Option SubAckProps → Result Bytes
sub_ack_props none = ok []
sub_ack_props (some p) = set_bytes (
    present Keys.reason_string (text p.reason) (length p.reason)
    ++ present Keys.user_props (user p.user_props) (length p.user_props))

abbrev pub set_sub_ack_props : RawProps → SubAckProps → Result SubAckProps
set_sub_ack_props = set_reason_props

abbrev pub UnsubAckProps : Type 0
UnsubAckProps = ReasonProps

abbrev pub unsub_ack_props : Option UnsubAckProps → Result Bytes
unsub_ack_props = sub_ack_props

abbrev pub set_unsub_ack_props : RawProps → UnsubAckProps → Result UnsubAckProps
set_unsub_ack_props = set_reason_props

pub record UnsubProps : Type 0 where
  pub user_props : UserProps

abbrev pub new_unsub_props : UnsubProps
new_unsub_props = record { user_props = [] }

unfoldable pub unsub_props : Option UnsubProps → Result Bytes
unsub_props none = ok []
unsub_props (some p) = set_bytes (present Keys.user_props (user p.user_props) (length p.user_props))

unfoldable pub set_unsub_props : RawProps → UnsubProps → Result UnsubProps
set_unsub_props props p = do
  user_props ← read_user Keys.user_props p.user_props props
  ok (record { user_props = user_props })
