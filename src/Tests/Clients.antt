-- ===== src/Tests/Clients.antt =====
-- The theorems on clients and their connections at concrete inputs.
use libmqtt.Prelude.{
  bytes_eq, ℕ, ◌≡◌, refl, inl, inr, true, false, List, [], ◌∷◌, ◌*◌, length, All, none, some, ℤ,
  pos, negsuc,
}
use libmqtt.Packets.Types.{v5}
use libmqtt.Packets.Writer.{buffer}
use libmqtt.Client.{
  World, AsyncClient, ConnectOptions, second, empty_conn_packet, default_client,
  default_connect_options,
}
use libmqtt.Client.Options
use libmqtt.Client.Options.{lt_int, modify}
use libmqtt.Client.Settings
use libmqtt.Client.Settings.{Setting, setter, apply_all, new_client, connect_server}
use libmqtt.Client.Settings.Valid.{IsValid, AppliedIsValid, StartIsValid, new_client-IsValid}
use libmqtt.Client.Settings.Shared.{packet_at, connect_server-identity}
use libmqtt.Client.Connect.{Meets, gone, stopped, attempts}
use libmqtt.Client.Connect.Delay.{IsBounded, attempts-IsBounded}
use libmqtt.Client.Connect.Again.{attempts-length}
use libmqtt.Util.Names.{named}
use libmqtt.Packets.Types.{ping_req}
use libmqtt.Client.Life.{Life, destroy}
use libmqtt.Client.Life.Told.{told_too, destroy-told}

-- Delays double, no file can be read, and what the caller gives is nothing.
abbrev pub scaled : ℤ → ℕ → ℤ
scaled (pos n) f = pos (n * f)
scaled (negsuc n) f = negsuc n

abbrev pub plain : World
plain = record {
  Handler = Unit;
  TlsConfig = Unit;
  CustomConnector = Unit;
  Header = Unit;
  Persist = Unit;
  Router = Unit;
  none_persist = tt;
  new_text_router = tt;
  Float = ℕ;
  below_one = λ f. false;
  above_one = λ f. true;
  one = 1;
  one_and_half = 2;
  scale = scaled;
  Fault = Unit;
  CertPool = Unit;
  Certificate = Unit;
  read_file = λ name. inl tt;
  append_certs = λ text. none;
  x509_key_pair = λ cert key. inl tt;
  load_x509_key_pair = λ cert key. inl tt;
  tls_config = λ cert skip pool name. tt;
  clone_tls = λ t. t;
  server_tls = λ name. tt;
}

abbrev settings : List (Setting plain)
settings =
    Settings.backoff_strategy (pos 0) (pos (3 * second)) 2
    ∷ Settings.version v5 true
    ∷ Settings.keepalive 10 2
    ∷ Settings.buf_size (pos 0) (negsuc 3)
    ∷ Settings.auto_reconnect true
    ∷ []

abbrev only_for_this : List (Setting plain)
only_for_this = Settings.identity (b'u' ∷ []) (b'p' ∷ []) ∷ []

abbrev the_options : ConnectOptions plain
the_options = (apply_all settings (default_client plain) (default_connect_options plain)).options

abbrev the_client : AsyncClient plain
the_client = (apply_all settings (default_client plain) (default_connect_options plain)).client

made : new_client settings ≡ inr (the_client, the_options)
unfolding new_client apply_all setter Options.with_backoff_strategy Options.with_version
    Options.with_keepalive Options.with_buf_size Options.with_auto_reconnect
made = refl

-- Two servers, of which one is for TLS.
abbrev with_servers : List (Setting plain)
with_servers =
    Settings.server ((b'a' ∷ []) ∷ []) ∷ Settings.secure_server ((b'b' ∷ []) ∷ []) ∷ settings

abbrev server_client : AsyncClient plain
server_client =
    (apply_all with_servers (default_client plain) (default_connect_options plain)).client

abbrev server_options : ConnectOptions plain
server_options =
    (apply_all with_servers (default_client plain) (default_connect_options plain)).options

made_with_servers : new_client with_servers ≡ inr (server_client, server_options)
unfolding new_client apply_all setter Options.with_server Options.with_secure_server
    Options.with_backoff_strategy Options.with_version Options.with_keepalive Options.with_buf_size
    Options.with_auto_reconnect
made_with_servers = refl

new_client-IsValid_example :
    IsValid server_client server_options
    × AppliedIsValid (connect_server only_for_this server_client server_options)
    × All (StartIsValid server_client) (Settings.connect tt server_options server_client)
new_client-IsValid_example =
    new_client-IsValid with_servers only_for_this tt server_client server_options made_with_servers

-- The dial fails, the server goes away, or the wait is cut short.
abbrev unreachable : Meets plain
unreachable = record {
  dial_error = some tt;
  closing_dialed = false;
  writer = buffer [];
  flush_fails = false;
  reply = stopped;
  closing_retry = false;
  closing_after = false;
  parent_exiting = false;
  timer_fires = true;
}

abbrev lost : Meets plain
lost = record unreachable { dial_error = none; reply = gone }

abbrev three : List (Meets plain)
three = unreachable ∷ lost ∷ record lost { flush_fails = true } ∷ []

attempts-IsBounded_example :
    let r = connect_server only_for_this the_client the_options in
    All
      (IsBounded r.options)
      (attempts r.options r.client.conn_packets three r.options.proto_version r.options.first_delay)
attempts-IsBounded_example =
    attempts-IsBounded settings only_for_this the_client the_options three made

attempts-length_example :
    length (attempts the_options the_client.conn_packets three v5 (pos second)) ≡ length three
unfolding packet_at apply_all setter Options.with_backoff_strategy Options.with_version
    Options.with_keepalive Options.with_buf_size Options.with_auto_reconnect default_client
    default_connect_options modify
attempts-length_example =
    attempts-length the_options refl the_client.conn_packets
      (record empty_conn_packet { keepalive = 10 }) refl refl three v5 (pos second)
      (
        (refl, refl, refl, refl, refl),
        ((refl, refl, refl, refl, refl), ((refl, refl, refl, refl, refl), tt)),
      )

connect_server-identity_example :
    packet_at the_options.conn_packet
      (connect_server
        (Settings.identity (b'u' ∷ []) (b'p' ∷ []) ∷ [])
        the_client
        the_options).client.conn_packets
    ≡ some (record empty_conn_packet { keepalive = 10; username = b'u' ∷ []; password = b'p' ∷ [] })
unfolding packet_at apply_all setter Options.with_backoff_strategy Options.with_version
    Options.with_keepalive Options.with_buf_size Options.with_auto_reconnect default_client
    default_connect_options modify
connect_server-identity_example =
    connect_server-identity (b'u' ∷ []) (b'p' ∷ []) the_client the_options
      (record empty_conn_packet { keepalive = 10 }) refl

-- Two connections.
abbrev alive : Life
alive = record {
  links =
      (b'a' ∷ [], record { parent_exit = false; logic_send = ping_req 0 ∷ [] })
      ∷ (b'b' ∷ [], record { parent_exit = false; logic_send = [] })
      ∷ [];
  closing = false;
}

destroy-told_example :
    (named (b'a' ∷ []) (destroy (λ server. true) false alive).links
      ≡ told_too (named (b'a' ∷ []) alive.links))
    × ((destroy (λ server. true) false alive).closing ≡ true)
unfolding named bytes_eq
destroy-told_example = destroy-told (λ server. true) alive (b'a' ∷ []) (refl, (refl, tt))
