-- ===== src/Client/Options.antt =====
-- client_options.go and client_connector.go: each option as the function that it returns.
use libmqtt.Prelude.{
  ℕ, zero, suc, ◌*◌, Bool, true, false, List, [], ◌∷◌, ◌++◌, length, ltb, ◌==◌, if◌then◌else◌,
  Option, none, some, ◌⊎◌, inl, inr, ℤ, pos, negsuc,
}
use libmqtt.Util.Bytes.{Bytes}
use libmqtt.Packets.Types.{v311, v5, ConnPacket}
use libmqtt.Client.{World, tcp, websocket, custom, ConnectOptions, AsyncClient, millisecond, second}

-- The errors that options return.
pub data SetupError (w : World) : Type 0 where
  bad_keepalive : SetupError w
  not_supported_version : SetupError w
  from_outside : w.Fault → SetupError w

-- The client and the options after the call, and its error.
pub record Applied (w : World) : Type 0 where
  pub client : AsyncClient w
  pub options : ConnectOptions w
  pub failure : Option (SetupError w)

-- `Option`.
abbrev pub Setter : World → Type 0
Setter w = AsyncClient w → ConnectOptions w → Applied w

-- The integer `n` if it is not below the bound, and else the bound.
abbrev pub at_least : ℕ → ℤ → ℤ
at_least b (pos n) = if ltb n b then pos b else pos n
at_least b (negsuc n) = pos b

abbrev pub lt_int : ℤ → ℤ → Bool
lt_int (pos m) (pos n) = ltb m n
lt_int (pos m) (negsuc n) = false
lt_int (negsuc m) (pos n) = true
lt_int (negsuc m) (negsuc n) = ltb n m

-- The packet behind a pointer, changed in place.
unfoldable pub modify : (ConnPacket → ConnPacket) → ℕ → List ConnPacket → List ConnPacket
modify f i [] = []
modify f zero (p ∷ ps) = f p ∷ ps
modify f (suc i) (p ∷ ps) = p ∷ modify f i ps

-- A handler that is set already stays. `none` is a nil function.
abbrev pub or_else : {H : Type 0} → Option H → Option H → Option H
or_else none h = h
or_else (some g) h = some g

module _ {w : World} where
  abbrev pub done : AsyncClient w → ConnectOptions w → Applied w
  done c o = record { client = c; options = o; failure = none }

  abbrev pub failed : SetupError w → AsyncClient w → ConnectOptions w → Applied w
  failed e c o = record { client = c; options = o; failure = some e }

  abbrev pub on_packet :
      (ConnPacket → ConnPacket) → AsyncClient w → ConnectOptions w → AsyncClient w
  on_packet f c o = record c { conn_packets = modify f o.conn_packet c.conn_packets }

  unfoldable pub with_secure_server : List Bytes → Setter w
  with_secure_server servers c o =
      done (record c { secure_servers = c.secure_servers ++ servers }) o

  unfoldable pub with_server : List Bytes → Setter w
  with_server servers c o = done (record c { servers = c.servers ++ servers }) o

  unfoldable pub with_buf_size : ℤ → ℤ → Setter w
  with_buf_size send_size recv_size c o =
      done (record c { send_buf = at_least 1 send_size; recv_buf = at_least 1 recv_size }) o

  unfoldable pub with_conn_handle_func : Option w.Handler → Setter w
  with_conn_handle_func h c o = done c (record o { conn_handler = h })

  unfoldable pub with_pub_handle_func : Option w.Handler → Setter w
  with_pub_handle_func h c o = done (record c { pub_handler = or_else c.pub_handler h }) o

  unfoldable pub with_sub_handle_func : Option w.Handler → Setter w
  with_sub_handle_func h c o = done (record c { sub_handler = or_else c.sub_handler h }) o

  unfoldable pub with_unsub_handle_func : Option w.Handler → Setter w
  with_unsub_handle_func h c o = done (record c { unsub_handler = or_else c.unsub_handler h }) o

  unfoldable pub with_net_handle_func : Option w.Handler → Setter w
  with_net_handle_func h c o = done (record c { net_handler = or_else c.net_handler h }) o

  unfoldable pub with_persist_handle_func : Option w.Handler → Setter w
  with_persist_handle_func h c o =
      done (record c { persist_handler = or_else c.persist_handler h }) o

  unfoldable pub with_log : ℕ → Setter w
  with_log level c o = done (record c { log_level = level }) o

  unfoldable pub with_persist : Option w.Persist → Setter w
  with_persist none c o = done c o
  with_persist (some m) c o = done (record c { persist = m }) o

  unfoldable pub with_router : Option w.Router → Setter w
  with_router none c o = done c o
  with_router (some r) c o = done (record c { router = r }) o

  unfoldable pub with_clean_session : Bool → Setter w
  with_clean_session f c o = done (on_packet (λ p. record p { clean_session = f }) c o) o

  unfoldable pub with_identity : Bytes → Bytes → Setter w
  with_identity username password c o =
      done (on_packet (λ p. record p { username = username; password = password }) c o) o

  -- A factor of at most 1 leaves the one that there was.
  unfoldable pub with_keepalive : ℕ → w.Float → Setter w
  with_keepalive keepalive factor c o =
      if keepalive == 0
      then failed bad_keepalive c o
      else done (on_packet (λ p. record p { keepalive = keepalive }) c o) (record o {
        keepalive = keepalive * second;
        keepalive_factor = if w.above_one factor then factor else o.keepalive_factor;
      })

  unfoldable pub with_auto_reconnect : Bool → Setter w
  with_auto_reconnect b c o = done c (record o { auto_reconnect = b })

  unfoldable pub with_backoff_strategy : ℤ → ℤ → w.Float → Setter w
  with_backoff_strategy first_delay max_delay factor c o =
      let first = at_least millisecond first_delay in
      done c (record o {
        first_delay = first;
        max_delay = if lt_int max_delay first then first else max_delay;
        back_off_factor = if w.below_one factor then w.one else factor;
      })

  unfoldable pub with_client_id : Bytes → Setter w
  with_client_id id c o = done (on_packet (λ p. record p { client_id = id }) c o) o

  unfoldable pub with_will : Bytes → ℕ → Bool → Bytes → Setter w
  with_will topic qos retain payload c o =
      done
        (on_packet
          (λ p. record p {
            is_will = true;
            will_topic = topic;
            will_qos = qos;
            will_retain = retain;
            will_message = payload;
          })
          c o)
        o

  -- What is set, or the error, once the certificate has been looked for.
  abbrev pub with_key : Bytes → Bool → w.CertPool → w.Fault ⊎ w.Certificate → Setter w
  with_key name skip pool (inl e) c o = failed (from_outside e) c o
  with_key name skip pool (inr cert) c o =
      done c (record o { tls_config = some (w.tls_config cert skip pool name) })

  -- `return err` behind a pool without certificates: `err` is nil there.
  abbrev pub with_pool : Option w.CertPool → (w.CertPool → Setter w) → Setter w
  with_pool none k c o = done c o
  with_pool (some pool) k c o = k pool c o

  abbrev pub with_text : w.Fault ⊎ Bytes → (Bytes → Setter w) → Setter w
  with_text (inl e) k c o = failed (from_outside e) c o
  with_text (inr b) k c o = k b c o

  -- A reader is what `ioutil.ReadAll` gives at first. The certificate's is read twice, and gives nothing
  -- more the second time; the authority's is not read.
  unfoldable pub with_tls_reader :
      w.Fault ⊎ Bytes → w.Fault ⊎ Bytes → w.Fault ⊎ Bytes → Bytes → Bool → Setter w
  with_tls_reader cert_reader key_reader ca_reader name skip = with_text cert_reader λ b.
      with_pool (w.append_certs b)
        λ pool. with_text key_reader λ key. with_key name skip pool (w.x509_key_pair [] key)

  unfoldable pub with_tls : Bytes → Bytes → Bytes → Bytes → Bool → Setter w
  with_tls cert_file key_file ca_cert name skip = with_text (w.read_file ca_cert) λ b.
      with_pool (w.append_certs b)
        λ pool. with_key name skip pool (w.load_x509_key_pair cert_file key_file)

  unfoldable pub with_custom_tls : Option w.TlsConfig → Setter w
  with_custom_tls none c o = done c (record o { tls_config = none })
  with_custom_tls (some t) c o = done c (record o { tls_config = some (w.clone_tls t) })

  unfoldable pub with_dial_timeout : ℕ → Setter w
  with_dial_timeout seconds c o = done c (record o { dial_timeout = seconds * second })

  unfoldable pub with_version : ℕ → Bool → Setter w
  with_version version compromise c o =
      let set = done c (record o { proto_version = version; proto_compromise = compromise }) in
      if version == v311
      then set
      else if version == v5
      then set
      else failed not_supported_version c o

  -- The packet is a copy of the caller's, in a new place, for an option that is applied once.
  unfoldable pub with_conn_packet : ConnPacket → Setter w
  with_conn_packet p c o =
      done (record c { conn_packets = c.conn_packets ++ p ∷ [] })
        (record o {
          conn_packet = length c.conn_packets;
          keepalive = if ltb 0 p.keepalive then p.keepalive * second else o.keepalive;
        })

  unfoldable pub with_tcp_connector : ℤ → Setter w
  with_tcp_connector timeout c o = done c (record o { new_connection = tcp timeout })

  unfoldable pub with_web_socket_connector : ℤ → w.Header → Setter w
  with_web_socket_connector timeout headers c o =
      done c (record o { new_connection = websocket timeout headers })

  unfoldable pub with_custom_connector : w.CustomConnector → Setter w
  with_custom_connector f c o = done c (record o { new_connection = custom f })
