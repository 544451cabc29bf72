-- ===== src/Util/RawProps.antt =====
-- util.go, `getRawProps`: the property block of an MQTT 5 packet cut into raw values by key.
pub mod Total
pub mod Chunks
use libmqtt.Prelude.{
  ℕ, zero, suc, ◌+◌, ◌-◌, ◌%◌, ◌≤◌, Bool, true, false, ◌&&◌, ◌||◌, List, [], ◌∷◌, ◌++◌, ltb, leb,
  ◌==◌, if◌then◌else◌, length, take, drop, Option, none, some, Result, ok, err, panic, stuck, ◌>>=◌,
  ◌>>◌, decode_bad_packet,
}
use libmqtt.Keys
use libmqtt.Util.Bytes.{Bytes, get_uint16}
use libmqtt.Util.VarInt.{RemainLength, get_remain_length}

-- The map from key to bytes, in the order in which the keys were first met.
abbrev pub RawProps : Type 0
RawProps = List (ℕ × Bytes)

unfoldable pub raw_get : ℕ → RawProps → Option Bytes
raw_get k [] = none
raw_get k ((j, v) ∷ m) = if j == k then some v else raw_get k m

-- `props[k] = append(props[k], p...)`.
unfoldable pub raw_append : ℕ → Bytes → RawProps → RawProps
raw_append k p [] = (k, p) ∷ []
raw_append k p ((j, v) ∷ m) = if j == k then (j, v ++ p) ∷ m else (j, v) ∷ raw_append k p m

-- How the value of a property is laid out.
pub data PropKind : Type 0 where
  one_byte two_bytes four_bytes text var_int text_pair : PropKind

-- The cases of the switch; any other key is a bad packet.
unfoldable pub prop_kind : ℕ → Option PropKind
prop_kind k =
    if k == Keys.payload_format_indicator
      || k == Keys.req_problem_info
      || k == Keys.req_resp_info
      || k == Keys.max_qos
      || k == Keys.retain_avail
      || k == Keys.wildcard_sub_avail
      || k == Keys.sub_id_avail
      || k == Keys.shared_sub_avail
    then some one_byte
    else if k == Keys.server_keepalive
        || k == Keys.max_recv
        || k == Keys.max_topic_alias
        || k == Keys.topic_alias
    then some two_bytes
    else if k == Keys.message_expiry_interval
        || k == Keys.session_expiry_interval
        || k == Keys.will_delay_interval
        || k == Keys.max_packet_size
    then some four_bytes
    else if k == Keys.content_type
        || k == Keys.resp_topic
        || k == Keys.correlation_data
        || k == Keys.assigned_client_id
        || k == Keys.auth_method
        || k == Keys.auth_data
        || k == Keys.resp_info
        || k == Keys.server_ref
        || k == Keys.reason_string
    then some text
    else if k == Keys.sub_id
    then some var_int
    else if k == Keys.user_props
    then some text_pair
    else none

-- `s[lo:hi]`, where `buf` holds the bytes of `s` up to its capacity.
unfoldable pub slice : Bytes → ℕ → ℕ → Result Bytes
slice buf lo hi =
    if leb lo hi && leb hi (length buf) then ok (take (hi - lo) (drop lo buf)) else panic

-- The value behind the key. `buf` is `propsBytes` up to its capacity and `vis` its length; the bounds
-- of a text are `uint16`s, which wrap.
unfoldable pub prop_value : PropKind → Bytes → ℕ → Result Bytes
unfolding slice get_uint16
prop_value one_byte buf vis = slice buf 1 2
prop_value two_bytes buf vis = slice buf 1 3
prop_value four_bytes buf vis = slice buf 1 5
prop_value text buf vis = do n ← get_uint16 (← slice buf 1 3); slice buf 1 ((3 + n) % 65536)
prop_value var_int buf vis =
    slice buf 1 (1 + (get_remain_length (take (vis - 1) (drop 1 buf))).byte_count)
prop_value text_pair buf vis = do
  n ← get_uint16 (← slice buf 1 3)
  let key_end = (2 + n) % 65536
  m ← get_uint16 (← slice buf ((key_end + 1) % 65536) ((key_end + 3) % 65536))
  let val_end = (2 + key_end + m) % 65536
  slice buf 1 ((val_end + 1) % 65536)

-- What the switch does with the key byte: an unknown key is the error, not a panic.
unfoldable pub prop_step : ℕ → Bytes → ℕ → Result Bytes
prop_step k buf vis = elim (prop_kind k) [
  | none ↦ err decode_bad_packet
  | some kind ↦ prop_value kind buf vis
]

-- `propsBytes = propsBytes[1+len(p):]` panics past the length, whatever the capacity.
unfoldable pub advance : ℕ → Bytes → ℕ → Result (Bytes × ℕ)
advance n buf vis = if leb n vis then ok (drop n buf, vis - n) else panic

-- The loop. Every round moves on by one byte at least, so a fuel of the block's length is enough.
-- `left` is `propsLen - i`, and is the length of `propsBytes` too.
unfoldable pub raw_props_loop : ℕ → Bytes → ℕ → RawProps → Result RawProps
raw_props_loop fuel buf zero props = ok props
raw_props_loop zero buf (suc left) props = stuck
raw_props_loop (suc fuel) [] (suc left) props = panic
raw_props_loop (suc fuel) (k ∷ bs) (suc left) props = do
  p ← prop_step k (k ∷ bs) (suc left)
  (buf', left') ← advance (1 + length p) (k ∷ bs) (suc left)
  raw_props_loop fuel buf' left' (raw_append k p props)

-- The deferred `recover`.
abbrev pub recovered {ℓ} : {A : Type ℓ} → Result A → Result A
recovered (ok a) = ok a
recovered (err e) = err e
recovered panic = err decode_bad_packet
recovered stuck = stuck

-- The body of the function, before `recover`; `data` has no capacity beyond its length.
unfoldable pub raw_props_body : Bytes → Result (RawProps × Bytes)
raw_props_body bytes = do
  let r = get_remain_length bytes
  _ ← slice bytes r.byte_count (r.value + r.byte_count)
  props ← raw_props_loop r.value (drop r.byte_count bytes) r.value []
  ok (props, drop (r.value + r.byte_count) bytes)

unfoldable pub get_raw_props : Bytes → Result (RawProps × Bytes)
get_raw_props bytes = recovered (raw_props_body bytes)
