-- ===== src/Client.antt =====
-- client_async.go and client_conn_options.go: the client and the options of its connections.
pub mod Options
pub mod Settings
pub mod Connect
pub mod Notices
pub mod Log
pub mod Life
pub mod Dial
pub mod WebSocket
use libmqtt.Prelude.{
  ℕ, ◌*◌, Bool, true, false, List, [], ◌∷◌, Option, none, some, ◌⊎◌, ℤ, pos, negsuc, suc, zero,
}
use libmqtt.Util.Bytes.{Bytes}
use libmqtt.Packets.Types.{v311, ConnPacket}

-- What the client takes from elsewhere: the caller's functions and values, floating point numbers,
-- files and TLS.
pub record World : Type 1 where
  pub Handler : Type 0
  pub TlsConfig : Type 0
  pub CustomConnector : Type 0
  pub Header : Type 0
  pub Persist : Type 0
  pub Router : Type 0
  pub none_persist : Persist
  pub new_text_router : Router
  -- `float64`, its comparisons with 1, the constant 1.5, and `time.Duration(float64(d) * f)`.
  pub Float : Type 0
  pub below_one : Float → Bool
  pub above_one : Float → Bool
  pub one : Float
  pub one_and_half : Float
  pub scale : ℤ → Float → ℤ
  -- Errors of the packages below, and of the network.
  pub Fault : Type 0
  pub CertPool : Type 0
  pub Certificate : Type 0
  pub read_file : Bytes → Fault ⊎ Bytes
  -- A new pool with the certificates of a PEM text, `none` if there are none.
  pub append_certs : Bytes → Option CertPool
  pub x509_key_pair : Bytes → Bytes → Fault ⊎ Certificate
  pub load_x509_key_pair : Bytes → Bytes → Fault ⊎ Certificate
  pub tls_config : Certificate → Bool → CertPool → Bytes → TlsConfig
  pub clone_tls : TlsConfig → TlsConfig
  -- `&tls.Config{ServerName: …}`.
  pub server_tls : Bytes → TlsConfig

-- The function that opens a connection: one of the two of the library with a handshake timeout, or the
-- caller's.
pub data Connector (w : World) : Type 0 where
  tcp : ℤ → Connector w
  websocket : ℤ → w.Header → Connector w
  custom : w.CustomConnector → Connector w

-- Durations are in nanoseconds. `conn_packet` is a pointer, a place in the client's `conn_packets`.
pub record ConnectOptions (w : World) : Type 0 where
  pub conn_handler : Option w.Handler
  pub dial_timeout : ℕ
  pub proto_version : ℕ
  pub proto_compromise : Bool
  pub tls_config : Option w.TlsConfig
  pub max_delay : ℤ
  pub first_delay : ℤ
  pub back_off_factor : w.Float
  pub auto_reconnect : Bool
  pub conn_packet : ℕ
  pub keepalive : ℕ
  pub keepalive_factor : w.Float
  pub new_connection : Connector w

-- What options write of the client besides its connection options, with the connect packets that
-- pointers lead to. A channel is its capacity, the logger its level.
pub record AsyncClient (w : World) : Type 0 where
  pub servers : List Bytes
  pub secure_servers : List Bytes
  pub send_buf : ℤ
  pub recv_buf : ℤ
  pub router : w.Router
  pub persist : w.Persist
  pub log_level : ℕ
  pub pub_handler : Option w.Handler
  pub sub_handler : Option w.Handler
  pub unsub_handler : Option w.Handler
  pub net_handler : Option w.Handler
  pub persist_handler : Option w.Handler
  pub conn_packets : List ConnPacket

abbrev pub millisecond : ℕ
millisecond = 1000000

abbrev pub second : ℕ
second = 1000000000

-- `&ConnPacket{}`.
abbrev pub empty_conn_packet : ConnPacket
empty_conn_packet = record {
  proto_version = 0;
  proto_name = [];
  clean_session = false;
  is_will = false;
  will_qos = 0;
  will_retain = false;
  will_props = none;
  props = none;
  username = [];
  password = [];
  client_id = [];
  keepalive = 0;
  will_topic = [];
  will_message = [];
}

module _ (w : World) where
  -- Its connect packet is the first of the client's.
  unfoldable pub default_connect_options : ConnectOptions w
  default_connect_options = record {
    conn_handler = none;
    dial_timeout = 20 * second;
    proto_version = v311;
    proto_compromise = false;
    tls_config = none;
    max_delay = pos (120 * second);
    first_delay = pos (5 * second);
    back_off_factor = w.one_and_half;
    auto_reconnect = false;
    conn_packet = 0;
    keepalive = 120 * second;
    keepalive_factor = w.one_and_half;
    new_connection = tcp (pos 0);
  }

  -- The nil logger is that of level 0, `Silent`.
  unfoldable pub default_client : AsyncClient w
  default_client = record {
    servers = [];
    secure_servers = [];
    send_buf = pos 1;
    recv_buf = pos 1;
    router = w.new_text_router;
    persist = w.none_persist;
    log_level = 0;
    pub_handler = none;
    sub_handler = none;
    unsub_handler = none;
    net_handler = none;
    persist_handler = none;
    conn_packets = empty_conn_packet ∷ [];
  }

-- `clone`: the connect packet is shared.
unfoldable pub clone_options : {w : World} → ConnectOptions w → ConnectOptions w
clone_options {w} o = record o { tls_config = cloned o.tls_config }
  where
    cloned : Option w.TlsConfig → Option w.TlsConfig
    cloned none = none
    cloned (some t) = some (w.clone_tls t)
