-- ===== src/Props/Total.antt =====
-- Reading the raw properties of any packet into its record returns.
use libmqtt.Prelude.{
  ℕ, zero, suc, ◌+◌, ◌≤◌, ◌≡◌, refl, ap, ◌∙◌, arith, inl, inr, List, [], ◌∷◌, length, drop,
  length-append, drop-append, some, Option-cases, Result, ok, err, Returns, value, >>=-Returns, ℤ,
  panic, stuck,
}
use libmqtt.Keys
use libmqtt.Util.Bytes.{Bytes}
use libmqtt.Util.Bytes.Total.{
  get_uint16-Returns, get_uint32-Returns, get_string_data-Returns, get_binary_data-Returns,
}
use libmqtt.Util.VarInt.{get_remain_length}
use libmqtt.Util.RawProps.{RawProps, raw_get, prop_kind, two_bytes, four_bytes}
use libmqtt.Util.RawProps.Total.{IsShaped, min_size, raw_get-min_size}
use libmqtt.Util.RawProps.Chunks.{IsChunked, Chunks, more, raw_get-Chunks}
use libmqtt.Util.UserData.{UserProps}
use libmqtt.Util.UserData.Total.{get_user_props-Returns}
use libmqtt.Props.Defs.{read_u32, read_u16, read_text, read_binary, read_user, payload_or_empty}
use libmqtt.Props.Conn.{
  ConnProps, ConnAckProps, DisconnProps, AuthProps, set_conn_props, set_conn_ack_props,
  set_disconn_props, set_auth_props,
}
use libmqtt.Props.Pub.{
  PublishProps, ReasonProps, sub_ids_loop, read_sub_ids, set_publish_props, set_reason_props,
}
use libmqtt.Props.Sub.{SubscribeProps, UnsubProps, set_subscribe_props, set_unsub_props}

payload_or_empty-Returns : (r : Result (Bytes × Bytes)) → Returns r → Returns (payload_or_empty r)
payload_or_empty-Returns (ok (b, n)) h = value b
payload_or_empty-Returns (err e) h = value []
payload_or_empty-Returns panic h = elim h [ ]
payload_or_empty-Returns stuck h = elim h [ ]

module _ (key : ℕ) (props : RawProps) where
  read_u32-Returns :
      (old : ℕ)
      → prop_kind key ≡ some four_bytes
      → IsShaped props
      → Returns (read_u32 key old props)
  unfolding read_u32
  read_u32-Returns old k s = elim (Option-cases (raw_get key props)) [
    | inl e ↦ rw (e, read_u32) (value old)
    | inr (v, e) ↦
        let q : 4 ≤ length v = omega (arith, raw_get-min_size key props v s e, ap min_size k) in
        rw (e, read_u32) (get_uint32-Returns v q)
  ]

  read_u16-Returns :
      (old : ℕ) → prop_kind key ≡ some two_bytes → IsShaped props → Returns (read_u16 key old props)
  unfolding read_u16
  read_u16-Returns old k s = elim (Option-cases (raw_get key props)) [
    | inl e ↦ rw (e, read_u16) (value old)
    | inr (v, e) ↦
        let q : 2 ≤ length v = omega (arith, raw_get-min_size key props v s e, ap min_size k) in
        rw (e, read_u16) (get_uint16-Returns v q)
  ]

  read_text-Returns : (old : Bytes) → Returns (read_text key old props)
  unfolding read_text
  read_text-Returns old = elim (Option-cases (raw_get key props)) [
    | inl e ↦ rw (e, read_text) (value old)
    | inr (v, e) ↦ rw (e, read_text) (payload_or_empty-Returns _ (get_string_data-Returns v))
  ]

  read_binary-Returns : (old : Bytes) → Returns (read_binary key old props)
  unfolding read_binary
  read_binary-Returns old = elim (Option-cases (raw_get key props)) [
    | inl e ↦ rw (e, read_binary) (value old)
    | inr (v, e) ↦ rw (e, read_binary) (payload_or_empty-Returns _ (get_binary_data-Returns v))
  ]

  read_user-Returns : (old : UserProps) → Returns (read_user key old props)
  unfolding read_user
  read_user-Returns old = elim (Option-cases (raw_get key props)) [
    | inl e ↦ rw (e, read_user) (value old)
    | inr (v, e) ↦ rw (e, read_user) (get_user_props-Returns v)
  ]

-- The loop over the subscription ids moves on with every number.
sub_ids_loop-Returns :
    (fuel : ℕ) (v : Bytes) (ids : List ℤ)
    → Chunks v
    → length v ≤ fuel
    → Returns (sub_ids_loop fuel v ids)
unfolding sub_ids_loop
sub_ids_loop-Returns fuel [] ids h len = value ids
sub_ids_loop-Returns zero (b ∷ bs) ids h len = absurd (omega arith)
sub_ids_loop-Returns (suc fuel) (b ∷ bs) ids (more c v e p f t) len =
    let size : length (b ∷ bs) ≡ length c + length v = ap length e ∙ length-append c v in
    let moved : drop (get_remain_length (b ∷ bs)).byte_count (b ∷ bs) ≡ v =
      rw (e, f v) (drop-append c v) in
    rw (moved, sub_ids_loop) (sub_ids_loop-Returns fuel v _ t (omega (arith, size)))

read_sub_ids-Returns :
    (key : ℕ) (old : List ℤ) (props : RawProps)
    → key ≡ Keys.sub_id
    → IsChunked props
    → Returns (read_sub_ids key old props)
unfolding read_sub_ids
read_sub_ids-Returns key old props k s = elim (Option-cases (raw_get key props)) [
  | inl e ↦ rw (e, read_sub_ids) (value old)
  | inr (v, e) ↦
      let e' : raw_get Keys.sub_id props ≡ some v = rw (← k) e in
      rw (e, read_sub_ids)
        (sub_ids_loop-Returns (length v) v [] (raw_get-Chunks props v s e') (omega arith))
]

ruleset reads = (
  >>=-Returns, read_u32-Returns, read_u16-Returns, read_text-Returns, read_binary-Returns,
  read_user-Returns, read_sub_ids-Returns, value, refl,
)

module _ (props : RawProps) (s : IsShaped props) where
  pub set_conn_props-Returns : (p : ConnProps) → Returns (set_conn_props props p)
  unfolding set_conn_props prop_kind
  set_conn_props-Returns p = search reads depth 20

  pub set_conn_ack_props-Returns : (p : ConnAckProps) → Returns (set_conn_ack_props props p)
  unfolding set_conn_ack_props prop_kind
  set_conn_ack_props-Returns p = search reads depth 30

  pub set_disconn_props-Returns : (p : DisconnProps) → Returns (set_disconn_props props p)
  unfolding set_disconn_props prop_kind
  set_disconn_props-Returns p = search reads depth 12

  pub set_auth_props-Returns : (p : AuthProps) → Returns (set_auth_props props p)
  unfolding set_auth_props prop_kind
  set_auth_props-Returns p = search reads depth 12

  pub set_publish_props-Returns :
      (p : PublishProps) → IsChunked props → Returns (set_publish_props props p)
  unfolding set_publish_props prop_kind
  set_publish_props-Returns p c = search reads depth 20

  pub set_reason_props-Returns : (p : ReasonProps) → Returns (set_reason_props props p)
  unfolding set_reason_props
  set_reason_props-Returns p = search reads depth 12

  pub set_subscribe_props-Returns : (p : SubscribeProps) → Returns (set_subscribe_props props p)
  unfolding set_subscribe_props
  set_subscribe_props-Returns p = search reads depth 12

  pub set_unsub_props-Returns : (p : UnsubProps) → Returns (set_unsub_props props p)
  unfolding set_unsub_props
  set_unsub_props-Returns p = search reads depth 12
