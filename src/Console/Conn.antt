-- ===== src/Console/Conn.antt =====
-- cmd/libmqtt/conn.go, `execConn` and `newClient`: the options of a connection, as the user writes them.
pub mod Clean
use libmqtt.Prelude.{
  ℕ, ◌≡◌, Bool, true, false, List, [], ◌∷◌, ◌++◌, length, ◌==◌, if◌then◌else◌, Option, none, some,
  ◌⊎◌, inl, inr, ℤ, pos, bytes_eq,
}
use libmqtt.Util.Bytes.{Bytes}
use libmqtt.Client.{World, ConnectOptions, AsyncClient}
use libmqtt.Client.Options.{SetupError, lt_int}
use libmqtt.Client.Settings
use libmqtt.Client.Settings.{
  Setting, pub_handle_func, conn_handle_func, unsub_handle_func, net_handle_func, sub_handle_func,
  clean_session, tls, will, server,
}
use libmqtt.Bindings.Options.{to_uint}
use libmqtt.Console.Words.{split, atoi}
use libmqtt.Console.Types.{
  Handlers, Text, bad_option, invalid_qos, setup_failed, Action, say, destroying, Console, Done,
}

abbrev key_clean : Bytes
key_clean = b'c' ∷ b'l' ∷ b'e' ∷ b'a' ∷ b'n' ∷ []

abbrev key_ssl : Bytes
key_ssl = b's' ∷ b's' ∷ b'l' ∷ []

abbrev key_ssl_cert : Bytes
key_ssl_cert = b's' ∷ b's' ∷ b'l' ∷ b'_' ∷ b'c' ∷ b'e' ∷ b'r' ∷ b't' ∷ []

abbrev key_ssl_key : Bytes
key_ssl_key = b's' ∷ b's' ∷ b'l' ∷ b'_' ∷ b'k' ∷ b'e' ∷ b'y' ∷ []

abbrev key_ssl_ca : Bytes
key_ssl_ca = b's' ∷ b's' ∷ b'l' ∷ b'_' ∷ b'c' ∷ b'a' ∷ []

abbrev key_ssl_server : Bytes
key_ssl_server = b's' ∷ b's' ∷ b'l' ∷ b'_' ∷ b's' ∷ b'e' ∷ b'r' ∷ b'v' ∷ b'e' ∷ b'r' ∷ []

abbrev key_ssl_skip_verify : Bytes
key_ssl_skip_verify =
    b's' ∷ b's' ∷ b'l' ∷ b'_' ∷ b's' ∷ b'k' ∷ b'i' ∷ b'p' ∷ b'_' ∷ b'v' ∷ b'e' ∷ b'r' ∷ b'i' ∷ b'f'
    ∷ b'y' ∷ []

abbrev key_will : Bytes
key_will = b'w' ∷ b'i' ∷ b'l' ∷ b'l' ∷ []

abbrev key_will_topic : Bytes
key_will_topic = b'w' ∷ b'i' ∷ b'l' ∷ b'l' ∷ b'_' ∷ b't' ∷ b'o' ∷ b'p' ∷ b'i' ∷ b'c' ∷ []

abbrev key_will_qos : Bytes
key_will_qos = b'w' ∷ b'i' ∷ b'l' ∷ b'l' ∷ b'_' ∷ b'q' ∷ b'o' ∷ b's' ∷ []

abbrev key_will_msg : Bytes
key_will_msg = b'w' ∷ b'i' ∷ b'l' ∷ b'l' ∷ b'_' ∷ b'm' ∷ b's' ∷ b'g' ∷ []

abbrev key_will_retain : Bytes
key_will_retain = b'w' ∷ b'i' ∷ b'l' ∷ b'l' ∷ b'_' ∷ b'r' ∷ b'e' ∷ b't' ∷ b'a' ∷ b'i' ∷ b'n' ∷ []

abbrev yes : Bytes
yes = b'y' ∷ []

-- The variables of `execConn`.
pub record Wishes (w : World) : Type 0 where
  pub options : List (Setting w)
  pub will_qos : ℕ
  pub ssl_skip_verify : Bool
  pub ssl : Bool
  pub is_will : Bool
  pub will_retain : Bool
  pub ssl_cert : Bytes
  pub ssl_key : Bytes
  pub ssl_ca : Bytes
  pub ssl_server : Bytes
  pub will_topic : Bytes
  pub will_msg : Bytes

abbrev pub no_wishes : {w : World} → Wishes w
no_wishes = record {
  options = [];
  will_qos = 0;
  ssl_skip_verify = false;
  ssl = false;
  is_will = false;
  will_retain = false;
  ssl_cert = [];
  ssl_key = [];
  ssl_ca = [];
  ssl_server = [];
  will_topic = [];
  will_msg = [];
}

module _ {w : World} where
  -- A QoS of at most 2, cut to a byte.
  abbrev with_will_qos : Option ℤ → Wishes w → Text w ⊎ Wishes w
  with_will_qos none o = inl invalid_qos
  with_will_qos (some qos) o =
      if lt_int (pos 2) qos then inl invalid_qos else inr (record o { will_qos = to_uint 8 qos })

  -- The switch on the key. The clean session is asked of the key, which is not `y`.
  unfoldable pub set_wish : Bytes → Bytes → Wishes w → Text w ⊎ Wishes w
  set_wish key value o =
      let y = bytes_eq value yes in
      if bytes_eq key key_clean
      then inr (record o { options = o.options ++ clean_session (bytes_eq key yes) ∷ [] })
      else if bytes_eq key key_ssl
      then inr (record o { ssl = y })
      else if bytes_eq key key_ssl_cert
      then inr (record o { ssl_cert = value })
      else if bytes_eq key key_ssl_key
      then inr (record o { ssl_key = value })
      else if bytes_eq key key_ssl_ca
      then inr (record o { ssl_ca = value })
      else if bytes_eq key key_ssl_server
      then inr (record o { ssl_server = value })
      else if bytes_eq key key_ssl_skip_verify
      then inr (record o { ssl_skip_verify = y })
      else if bytes_eq key key_will
      then inr (record o { is_will = y })
      else if bytes_eq key key_will_topic
      then inr (record o { will_topic = value })
      else if bytes_eq key key_will_qos
      then with_will_qos (atoi value) o
      else if bytes_eq key key_will_msg
      then inr (record o { will_msg = value })
      else if bytes_eq key key_will_retain
      then inr (record o { will_retain = y })
      else inr o

  abbrev pub wish : Bytes → List Bytes → Wishes w → Text w ⊎ Wishes w
  wish v (key ∷ value ∷ []) o = set_wish key value o
  wish v _ o = inl (bad_option v)

  abbrev pub and_next : Text w ⊎ Wishes w → (Wishes w → Text w ⊎ Wishes w) → Text w ⊎ Wishes w
  and_next (inl t) k = inl t
  and_next (inr o) k = k o

  unfoldable pub wishes_of : List Bytes → Wishes w → Text w ⊎ Wishes w
  wishes_of [] o = inr o
  wishes_of (v ∷ vs) o = and_next (wish v (split b'=' v) o) (wishes_of vs)

  -- The options for TLS and for a will, if the user asked for them.
  unfoldable pub settings_of : Wishes w → List (Setting w)
  settings_of o =
      o.options
      ++ ((if o.ssl
            then tls o.ssl_cert o.ssl_key o.ssl_ca o.ssl_server o.ssl_skip_verify ∷ []
            else [])
          ++ (if o.is_will then will o.will_topic o.will_qos o.will_retain o.will_msg ∷ [] else []))

module _ {w : World} (h : Handlers w) where
  abbrev pub destroyed : Console w → List (Action w)
  destroyed none = []
  destroyed (some c) = destroying true ∷ []

  abbrev pub made : List (Action w) → SetupError w ⊎ (AsyncClient w × ConnectOptions w) → Done w
  made before (inl e) = record {
    client = none;
    actions = before ++ say (setup_failed e) ∷ [];
    is_ok = true;
    exited = false;
  }
  made before (inr c) = record { client = some c; actions = before; is_ok = true; exited = false }

  -- The handlers of the console, and then the options.
  unfoldable pub all_settings : List (Setting w) → List (Setting w)
  all_settings options =
      pub_handle_func (some h.pub_handler)
      ∷ conn_handle_func (some h.conn_handler)
      ∷ unsub_handle_func (some h.unsub_handler)
      ∷ net_handle_func (some h.net_handler)
      ∷ sub_handle_func (some h.sub_handler)
      ∷ options

  unfoldable pub new_client : List (Setting w) → Console w → Done w
  new_client options c = made (destroyed c) (Settings.new_client (all_settings options))

  abbrev pub connected : Bytes → Text w ⊎ Wishes w → Console w → Done w
  connected address (inl t) c = record {
    client = c;
    actions = say t ∷ [];
    is_ok = true;
    exited = false;
  }
  connected address (inr o) c = new_client (settings_of o ++ server (address ∷ []) ∷ []) c

  -- The options behind the address are looked at only if there is nothing behind them.
  abbrev pub wishes : List Bytes → Text w ⊎ Wishes w
  wishes (text ∷ []) = wishes_of (split b',' text) no_wishes
  wishes _ = inr no_wishes

  unfoldable pub exec_conn : List Bytes → Console w → Done w
  exec_conn [] c = record { client = c; actions = []; is_ok = false; exited = false }
  exec_conn (address ∷ args) c =
      if length (split b':' address) == 2
      then connected address (wishes args) c
      else record { client = c; actions = []; is_ok = false; exited = false }
