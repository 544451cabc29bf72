-- ===== src/Bindings/Options.antt =====
-- c/options_c.go: the options that are set from C, with their conversions.
use libmqtt.Prelude.{ℕ, ◌+◌, ◌-◌, ◌*◌, ◌%◌, ◌^◌, Bool, [], ◌∷◌, some, ℤ, pos, negsuc}
use libmqtt.Util.Bytes.{Bytes}
use libmqtt.Persist.Strategy.{PersistStrategy}
use libmqtt.Client.{World, millisecond}
use libmqtt.Client.Settings
use libmqtt.Client.Settings.{Setting}
use libmqtt.Bindings.{Bindings, add_option}

-- `uint8(n)`, `uint16(n)` and `uint32(n)`.
abbrev pub to_uint : ℕ → ℤ → ℕ
to_uint bits (pos n) = n % 2 ^ bits
to_uint bits (negsuc n) = 2 ^ bits - 1 - n % 2 ^ bits

-- `time.Duration(n) * time.Millisecond`.
abbrev pub milliseconds : ℤ → ℤ
milliseconds (pos n) = pos (n * millisecond)
milliseconds (negsuc n) = negsuc ((n + 1) * millisecond - 1)

-- No interval is set.
abbrev pub strategy_of : ℤ → Bool → Bool → PersistStrategy
strategy_of max_count drop_on_exceed duplicate_replace = record {
  interval = 0;
  max_count = to_uint 32 max_count;
  drop_on_exceed = drop_on_exceed;
  duplicate_replace = duplicate_replace;
}

-- The routers and the persist methods that the library makes.
pub record Made (w : World) : Type 0 where
  pub mem_persist : PersistStrategy → w.Persist
  pub file_persist : Bytes → PersistStrategy → w.Persist
  pub standard_router : w.Router
  pub regex_router : w.Router

module _ {w : World} (id : ℤ) where
  unfoldable pub client_with_clean_session : Bool → Bindings w → Bindings w
  client_with_clean_session flag = add_option id (Settings.clean_session flag)

  unfoldable pub client_with_identity : Bytes → Bytes → Bindings w → Bindings w
  client_with_identity username password = add_option id (Settings.identity username password)

  unfoldable pub client_with_keepalive : ℤ → w.Float → Bindings w → Bindings w
  client_with_keepalive keepalive factor =
      add_option id (Settings.keepalive (to_uint 16 keepalive) factor)

  unfoldable pub client_with_auto_reconnect : Bool → Bindings w → Bindings w
  client_with_auto_reconnect enable = add_option id (Settings.auto_reconnect enable)

  unfoldable pub client_with_backoff_strategy : ℤ → ℤ → w.Float → Bindings w → Bindings w
  client_with_backoff_strategy first_delay max_delay factor =
      add_option id
        (Settings.backoff_strategy (milliseconds first_delay) (milliseconds max_delay) factor)

  unfoldable pub client_with_client_id : Bytes → Bindings w → Bindings w
  client_with_client_id client_id = add_option id (Settings.client_id client_id)

  unfoldable pub client_with_will : Bytes → ℤ → Bool → Bytes → Bindings w → Bindings w
  client_with_will topic qos retain payload =
      add_option id (Settings.will topic (to_uint 8 qos) retain payload)

  unfoldable pub client_with_secure_server : Bytes → Bindings w → Bindings w
  client_with_secure_server server = add_option id (Settings.secure_server (server ∷ []))

  unfoldable pub client_with_server : Bytes → Bindings w → Bindings w
  client_with_server server = add_option id (Settings.server (server ∷ []))

  unfoldable pub client_with_tls : Bytes → Bytes → Bytes → Bytes → Bool → Bindings w → Bindings w
  client_with_tls cert_file key_file ca_cert name skip =
      add_option id (Settings.tls cert_file key_file ca_cert name skip)

  unfoldable pub client_with_dial_timeout : ℤ → Bindings w → Bindings w
  client_with_dial_timeout timeout = add_option id (Settings.dial_timeout (to_uint 16 timeout))

  unfoldable pub client_with_buf_size : ℤ → ℤ → Bindings w → Bindings w
  client_with_buf_size send_buf recv_buf = add_option id (Settings.buf_size send_buf recv_buf)

  unfoldable pub client_with_log : ℤ → Bindings w → Bindings w
  client_with_log level = add_option id (Settings.log (to_uint 8 level))

  unfoldable pub client_with_version : ℤ → Bool → Bindings w → Bindings w
  client_with_version version compromise =
      add_option id (Settings.version (to_uint 8 version) compromise)

  unfoldable pub client_with_none_persist : Bindings w → Bindings w
  client_with_none_persist = add_option id (Settings.persist (some w.none_persist))

  unfoldable pub client_with_text_router : Bindings w → Bindings w
  client_with_text_router = add_option id (Settings.router (some w.new_text_router))

  module _ (made : Made w) where
    unfoldable pub client_with_mem_persist : ℤ → Bool → Bool → Bindings w → Bindings w
    client_with_mem_persist max_count drop replace =
        add_option id
          (Settings.persist (some (made.mem_persist (strategy_of max_count drop replace))))

    unfoldable pub client_with_file_persist : Bytes → ℤ → Bool → Bool → Bindings w → Bindings w
    client_with_file_persist dir_path max_count drop replace =
        add_option id (
          Settings.persist (some (made.file_persist dir_path (strategy_of max_count drop replace))))

    unfoldable pub client_with_std_router : Bindings w → Bindings w
    client_with_std_router = add_option id (Settings.router (some made.standard_router))

    unfoldable pub client_with_regex_router : Bindings w → Bindings w
    client_with_regex_router = add_option id (Settings.router (some made.regex_router))
