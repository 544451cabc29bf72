-- ===== src/Props/Conn.antt =====
-- pkt_conn.go and pkt_auth.go: the properties of CONNECT, CONNACK, DISCONNECT and AUTH. An optional
-- pointer is an `Option`; a missing number or text is 0 or empty, as in the source.
use libmqtt.Prelude.{ℕ, Bool, [], ◌∷◌, Option, none, some, Result, ok, ◌>>=◌}
use libmqtt.Keys
use libmqtt.Util.Bytes.{Bytes}
use libmqtt.Util.RawProps.{RawProps}
use libmqtt.Util.UserData.{UserProps}
use libmqtt.Props.Defs.{
  text, binary, bool_ptr, u8, u16, u32, user, set_bytes, read_u32, read_u16, read_byte, read_flag,
  read_text, read_binary, read_user,
}

pub record WillProps : Type 0 where
  pub will_delay_interval : ℕ
  pub payload_format : ℕ
  pub message_expiry_interval : ℕ
  pub content_type : Bytes
  pub response_topic : Bytes
  pub correlation_data : Bytes
  pub user_props : UserProps

abbrev pub new_will_props : WillProps
new_will_props = record {
  will_delay_interval = 0;
  payload_format = 0;
  message_expiry_interval = 0;
  content_type = [];
  response_topic = [];
  correlation_data = [];
  user_props = [];
}

unfoldable pub will_props : Option WillProps → Result Bytes
will_props none = ok []
will_props (some p) = set_bytes (
    (Keys.will_delay_interval, u32 p.will_delay_interval)
    ∷ (Keys.payload_format_indicator, u8 p.payload_format)
    ∷ (Keys.message_expiry_interval, u32 p.message_expiry_interval)
    ∷ (Keys.content_type, text p.content_type)
    ∷ (Keys.resp_topic, text p.response_topic)
    ∷ (Keys.correlation_data, binary p.correlation_data)
    ∷ (Keys.user_props, user p.user_props)
    ∷ [])

pub record ConnProps : Type 0 where
  pub session_expiry_interval : ℕ
  pub max_recv : ℕ
  pub max_packet_size : ℕ
  pub max_topic_alias : ℕ
  pub req_resp_info : Option Bool
  pub req_problem_info : Option Bool
  pub user_props : UserProps
  pub auth_method : Bytes
  pub auth_data : Bytes

abbrev pub new_conn_props : ConnProps
new_conn_props = record {
  session_expiry_interval = 0;
  max_recv = 0;
  max_packet_size = 0;
  max_topic_alias = 0;
  req_resp_info = none;
  req_problem_info = none;
  user_props = [];
  auth_method = [];
  auth_data = [];
}

unfoldable pub conn_props : Option ConnProps → Result Bytes
conn_props none = ok []
conn_props (some p) = set_bytes (
    (Keys.session_expiry_interval, u32 p.session_expiry_interval)
    ∷ (Keys.max_recv, u16 p.max_recv)
    ∷ (Keys.max_packet_size, u32 p.max_packet_size)
    ∷ (Keys.max_topic_alias, u16 p.max_topic_alias)
    ∷ (Keys.req_resp_info, bool_ptr p.req_resp_info)
    ∷ (Keys.req_problem_info, bool_ptr p.req_problem_info)
    ∷ (Keys.user_props, user p.user_props)
    ∷ (Keys.auth_method, text p.auth_method)
    ∷ (Keys.auth_data, binary p.auth_data)
    ∷ [])

unfoldable pub set_conn_props : RawProps → ConnProps → Result ConnProps
set_conn_props props p = do
  session_expiry_interval ← read_u32 Keys.session_expiry_interval p.session_expiry_interval props
  max_recv ← read_u16 Keys.max_recv p.max_recv props
  max_packet_size ← read_u32 Keys.max_packet_size p.max_packet_size props
  max_topic_alias ← read_u16 Keys.max_topic_alias p.max_topic_alias props
  user_props ← read_user Keys.user_props p.user_props props
  auth_method ← read_text Keys.auth_method p.auth_method props
  auth_data ← read_binary Keys.auth_data p.auth_data props
  ok (record p {
    session_expiry_interval = session_expiry_interval;
    max_recv = max_recv;
    max_packet_size = max_packet_size;
    max_topic_alias = max_topic_alias;
    req_resp_info = read_flag Keys.req_resp_info p.req_resp_info props;
    req_problem_info = read_flag Keys.req_problem_info p.req_problem_info props;
    user_props = user_props;
    auth_method = auth_method;
    auth_data = auth_data;
  })

pub record ConnAckProps : Type 0 where
  pub auth_data : Bytes
  pub assigned_client_id : Bytes
  pub reason : Bytes
  pub resp_info : Bytes
  pub server_ref : Bytes
  pub auth_method : Bytes
  pub retain_avail : Option Bool
  pub user_props : UserProps
  pub wildcard_sub_avail : Option Bool
  pub sub_id_avail : Option Bool
  pub shared_sub_avail : Option Bool
  pub session_expiry_interval : ℕ
  pub max_packet_size : ℕ
  pub max_recv : ℕ
  pub max_topic_alias : ℕ
  pub server_keepalive : ℕ
  pub max_qos : ℕ

abbrev pub new_conn_ack_props : ConnAckProps
new_conn_ack_props = record {
  auth_data = [];
  assigned_client_id = [];
  reason = [];
  resp_info = [];
  server_ref = [];
  auth_method = [];
  retain_avail = none;
  user_props = [];
  wildcard_sub_avail = none;
  sub_id_avail = none;
  shared_sub_avail = none;
  session_expiry_interval = 0;
  max_packet_size = 0;
  max_recv = 0;
  max_topic_alias = 0;
  server_keepalive = 0;
  max_qos = 0;
}

unfoldable pub conn_ack_props : Option ConnAckProps → Result Bytes
conn_ack_props none = ok []
conn_ack_props (some p) = set_bytes (
    (Keys.retain_avail, bool_ptr p.retain_avail)
    ∷ (Keys.wildcard_sub_avail, bool_ptr p.wildcard_sub_avail)
    ∷ (Keys.sub_id_avail, bool_ptr p.sub_id_avail)
    ∷ (Keys.shared_sub_avail, bool_ptr p.shared_sub_avail)
    ∷ (Keys.session_expiry_interval, u32 p.session_expiry_interval)
    ∷ (Keys.max_recv, u16 p.max_recv)
    ∷ (Keys.max_qos, u8 p.max_qos)
    ∷ (Keys.max_packet_size, u32 p.max_packet_size)
    ∷ (Keys.assigned_client_id, text p.assigned_client_id)
    ∷ (Keys.max_topic_alias, u16 p.max_topic_alias)
    ∷ (Keys.reason_string, text p.reason)
    ∷ (Keys.user_props, user p.user_props)
    ∷ (Keys.server_keepalive, u16 p.server_keepalive)
    ∷ (Keys.resp_info, text p.resp_info)
    ∷ (Keys.server_ref, text p.server_ref)
    ∷ (Keys.auth_method, text p.auth_method)
    ∷ (Keys.auth_data, binary p.auth_data)
    ∷ [])

unfoldable pub set_conn_ack_props : RawProps → ConnAckProps → Result ConnAckProps
set_conn_ack_props props p = do
  session_expiry_interval ← read_u32 Keys.session_expiry_interval p.session_expiry_interval props
  max_recv ← read_u16 Keys.max_recv p.max_recv props
  max_packet_size ← read_u32 Keys.max_packet_size p.max_packet_size props
  assigned_client_id ← read_text Keys.assigned_client_id p.assigned_client_id props
  max_topic_alias ← read_u16 Keys.max_topic_alias p.max_topic_alias props
  reason ← read_text Keys.reason_string p.reason props
  user_props ← read_user Keys.user_props p.user_props props
  server_keepalive ← read_u16 Keys.server_keepalive p.server_keepalive props
  resp_info ← read_text Keys.resp_info p.resp_info props
  server_ref ← read_text Keys.server_ref p.server_ref props
  auth_method ← read_text Keys.auth_method p.auth_method props
  auth_data ← read_binary Keys.auth_data p.auth_data props
  ok (record p {
    session_expiry_interval = session_expiry_interval;
    max_recv = max_recv;
    max_qos = read_byte Keys.max_qos p.max_qos props;
    retain_avail = read_flag Keys.retain_avail p.retain_avail props;
    max_packet_size = max_packet_size;
    assigned_client_id = assigned_client_id;
    max_topic_alias = max_topic_alias;
    reason = reason;
    user_props = user_props;
    wildcard_sub_avail = read_flag Keys.wildcard_sub_avail p.wildcard_sub_avail props;
    sub_id_avail = read_flag Keys.sub_id_avail p.sub_id_avail props;
    shared_sub_avail = read_flag Keys.shared_sub_avail p.shared_sub_avail props;
    server_keepalive = server_keepalive;
    resp_info = resp_info;
    server_ref = server_ref;
    auth_method = auth_method;
    auth_data = auth_data;
  })

pub record DisconnProps : Type 0 where
  pub session_expiry_interval : ℕ
  pub reason : Bytes
  pub user_props : UserProps
  pub server_ref : Bytes

abbrev pub new_disconn_props : DisconnProps
new_disconn_props = record {
  session_expiry_interval = 0;
  reason = [];
  user_props = [];
  server_ref = [];
}

unfoldable pub disconn_props : Option DisconnProps → Result Bytes
disconn_props none = ok []
disconn_props (some p) = set_bytes (
    (Keys.session_expiry_interval, u32 p.session_expiry_interval)
    ∷ (Keys.reason_string, text p.reason)
    ∷ (Keys.user_props, user p.user_props)
    ∷ (Keys.server_ref, text p.server_ref)
    ∷ [])

unfoldable pub set_disconn_props : RawProps → DisconnProps → Result DisconnProps
set_disconn_props props p = do
  session_expiry_interval ← read_u32 Keys.session_expiry_interval p.session_expiry_interval props
  reason ← read_text Keys.reason_string p.reason props
  user_props ← read_user Keys.user_props p.user_props props
  server_ref ← read_text Keys.server_ref p.server_ref props
  ok (record p {
    session_expiry_interval = session_expiry_interval;
    reason = reason;
    user_props = user_props;
    server_ref = server_ref;
  })

pub record AuthProps : Type 0 where
  pub auth_method : Bytes
  pub auth_data : Bytes
  pub reason : Bytes
  pub user_props : UserProps

abbrev pub new_auth_props : AuthProps
new_auth_props = record { auth_method = []; auth_data = []; reason = []; user_props = [] }

unfoldable pub auth_props : Option AuthProps → Result Bytes
auth_props none = ok []
auth_props (some p) = set_bytes (
    (Keys.auth_method, text p.auth_method)
    ∷ (Keys.auth_data, binary p.auth_data)
    ∷ (Keys.reason_string, text p.reason)
    ∷ (Keys.user_props, user p.user_props)
    ∷ [])

unfoldable pub set_auth_props : RawProps → AuthProps → Result AuthProps
set_auth_props props p = do
  auth_method ← read_text Keys.auth_method p.auth_method props
  auth_data ← read_binary Keys.auth_data p.auth_data props
  reason ← read_text Keys.reason_string p.reason props
  user_props ← read_user Keys.user_props p.user_props props
  ok (record p {
    auth_method = auth_method;
    auth_data = auth_data;
    reason = reason;
    user_props = user_props;
  })
