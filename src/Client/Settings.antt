-- ===== src/Client/Settings.antt =====
-- client_async.go, `NewClient`, and client_conn_options.go, `ConnectServer`: options applied in order.
pub mod Valid
pub mod Shared
use libmqtt.Prelude.{ℕ, ◌++◌, Bool, List, [], ◌∷◌, Option, none, some, ◌⊎◌, inl, inr, ℤ}
use libmqtt.Util.Bytes.{Bytes}
use libmqtt.Packets.Types.{ConnPacket}
use libmqtt.Client.{
  World, ConnectOptions, AsyncClient, default_client, default_connect_options, clone_options,
}
use libmqtt.Client.Options
use libmqtt.Client.Options.{SetupError, Applied, Setter, done}

-- The options that the library offers, with their arguments.
pub data Setting (w : World) : Type 0 where
  secure_server server : List Bytes → Setting w
  buf_size : ℤ → ℤ → Setting w
  conn_handle_func pub_handle_func sub_handle_func unsub_handle_func : Option w.Handler → Setting w
  net_handle_func persist_handle_func : Option w.Handler → Setting w
  log : ℕ → Setting w
  persist : Option w.Persist → Setting w
  router : Option w.Router → Setting w
  clean_session auto_reconnect : Bool → Setting w
  identity : Bytes → Bytes → Setting w
  keepalive : ℕ → w.Float → Setting w
  backoff_strategy : ℤ → ℤ → w.Float → Setting w
  client_id : Bytes → Setting w
  will : Bytes → ℕ → Bool → Bytes → Setting w
  tls_reader : w.Fault ⊎ Bytes → w.Fault ⊎ Bytes → w.Fault ⊎ Bytes → Bytes → Bool → Setting w
  tls : Bytes → Bytes → Bytes → Bytes → Bool → Setting w
  custom_tls : Option w.TlsConfig → Setting w
  dial_timeout : ℕ → Setting w
  version : ℕ → Bool → Setting w
  conn_packet : ConnPacket → Setting w
  tcp_connector : ℤ → Setting w
  web_socket_connector : ℤ → w.Header → Setting w
  custom_connector : w.CustomConnector → Setting w

module _ {w : World} where
  unfoldable pub setter : Setting w → Setter w
  setter (secure_server ss) = Options.with_secure_server ss
  setter (server ss) = Options.with_server ss
  setter (buf_size m n) = Options.with_buf_size m n
  setter (conn_handle_func h) = Options.with_conn_handle_func h
  setter (pub_handle_func h) = Options.with_pub_handle_func h
  setter (sub_handle_func h) = Options.with_sub_handle_func h
  setter (unsub_handle_func h) = Options.with_unsub_handle_func h
  setter (net_handle_func h) = Options.with_net_handle_func h
  setter (persist_handle_func h) = Options.with_persist_handle_func h
  setter (log l) = Options.with_log l
  setter (persist m) = Options.with_persist m
  setter (router r) = Options.with_router r
  setter (clean_session b) = Options.with_clean_session b
  setter (auto_reconnect b) = Options.with_auto_reconnect b
  setter (identity u p) = Options.with_identity u p
  setter (keepalive k f) = Options.with_keepalive k f
  setter (backoff_strategy a b f) = Options.with_backoff_strategy a b f
  setter (client_id i) = Options.with_client_id i
  setter (will t q r p) = Options.with_will t q r p
  setter (tls_reader a b c n s) = Options.with_tls_reader a b c n s
  setter (tls a b c n s) = Options.with_tls a b c n s
  setter (custom_tls t) = Options.with_custom_tls t
  setter (dial_timeout n) = Options.with_dial_timeout n
  setter (version v b) = Options.with_version v b
  setter (conn_packet p) = Options.with_conn_packet p
  setter (tcp_connector t) = Options.with_tcp_connector t
  setter (web_socket_connector t h) = Options.with_web_socket_connector t h
  setter (custom_connector f) = Options.with_custom_connector f

  -- The next option, unless this one failed.
  abbrev pub resume : Applied w → Setter w → Applied w
  resume r k = elim r.failure [ none ↦ k r.client r.options | some e ↦ r ]

  -- The loop over the options, which ends at the first error.
  unfoldable pub apply_all : List (Setting w) → Setter w
  apply_all [] c o = done c o
  apply_all (x ∷ xs) c o = resume (setter x c o) (apply_all xs)

  abbrev pub made : Applied w → SetupError w ⊎ (AsyncClient w × ConnectOptions w)
  made r = elim r.failure [ none ↦ inr (r.client, r.options) | some e ↦ inl e ]

-- `NewClient`: the client with its own connection options, or the error.
unfoldable pub new_client :
    {w : World} → List (Setting w) → SetupError w ⊎ (AsyncClient w × ConnectOptions w)
new_client {w} xs = made (apply_all xs (default_client w) (default_connect_options w))

-- `ConnectServer`, up to the start of the connection: the options for it are in the result, and the
-- client's own stay what they were.
unfoldable pub connect_server :
    {w : World} → List (Setting w) → AsyncClient w → ConnectOptions w → Applied w
connect_server xs c o = apply_all xs c (clone_options o)

-- A connection that is started: `connect` with these options, for a server, in a version and with a delay.
pub record Start (w : World) : Type 0 where
  pub server : Bytes
  pub options : ConnectOptions w
  pub version : ℕ
  pub delay : ℤ

abbrev pub each_start : {w : World} → (Bytes → Start w) → List Bytes → List (Start w)
each_start f [] = []
each_start f (s ∷ ss) = f s ∷ each_start f ss

module _ {w : World} (h : w.Handler) (o : ConnectOptions w) where
  abbrev pub plain_start : Bytes → Start w
  unfolding clone_options
  plain_start s = record {
    server = s;
    options = record (clone_options o) { conn_handler = some h };
    version = o.proto_version;
    delay = o.first_delay;
  }

  -- The address is split into one part at most, which is all of it.
  abbrev pub secure_start : Bytes → Start w
  unfolding clone_options
  secure_start s = record {
    server = s;
    options = record (clone_options o) {
      conn_handler = some h;
      tls_config = some (w.server_tls s);
    };
    version = o.proto_version;
    delay = o.first_delay;
  }

  -- `Connect`, with the function around the caller's handler: the plain servers, and then the others.
  unfoldable pub connect : AsyncClient w → List (Start w)
  connect c = each_start plain_start c.servers ++ each_start secure_start c.secure_servers
