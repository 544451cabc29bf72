-- ===== src/Keys.antt =====
-- libmqtt.go: the identifiers of the MQTT 5 properties.
use libmqtt.Prelude.{ℕ}

abbrev pub payload_format_indicator : ℕ
payload_format_indicator = 1

abbrev pub message_expiry_interval : ℕ
message_expiry_interval = 2

abbrev pub content_type : ℕ
content_type = 3

abbrev pub resp_topic : ℕ
resp_topic = 8

abbrev pub correlation_data : ℕ
correlation_data = 9

abbrev pub sub_id : ℕ
sub_id = 11

abbrev pub session_expiry_interval : ℕ
session_expiry_interval = 17

abbrev pub assigned_client_id : ℕ
assigned_client_id = 18

abbrev pub server_keepalive : ℕ
server_keepalive = 19

abbrev pub auth_method : ℕ
auth_method = 21

abbrev pub auth_data : ℕ
auth_data = 22

abbrev pub req_problem_info : ℕ
req_problem_info = 23

abbrev pub will_delay_interval : ℕ
will_delay_interval = 24

abbrev pub req_resp_info : ℕ
req_resp_info = 25

abbrev pub resp_info : ℕ
resp_info = 26

abbrev pub server_ref : ℕ
server_ref = 28

abbrev pub reason_string : ℕ
reason_string = 31

abbrev pub max_recv : ℕ
max_recv = 33

abbrev pub max_topic_alias : ℕ
max_topic_alias = 34

abbrev pub topic_alias : ℕ
topic_alias = 35

abbrev pub max_qos : ℕ
max_qos = 36

abbrev pub retain_avail : ℕ
retain_avail = 37

abbrev pub user_props : ℕ
user_props = 38

abbrev pub max_packet_size : ℕ
max_packet_size = 39

abbrev pub wildcard_sub_avail : ℕ
wildcard_sub_avail = 40

abbrev pub sub_id_avail : ℕ
sub_id_avail = 41

abbrev pub shared_sub_avail : ℕ
shared_sub_avail = 42
