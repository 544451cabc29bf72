-- ===== src/Client/Settings/Valid.antt =====
-- What every client and all connection options keep to, whatever the options are.
use libmqtt.Prelude.{
  All, All-append, ℕ, zero, suc, ◌<◌, ◌≡◌, refl, arith, ◌⊎◌, inl, inr, Bool, false, List, [], ◌∷◌,
  length, length-append, Option, none, some, ℤ, pos, negsuc, Option-cases,
}
use mathlib.Core.Path.{subst}
use libmqtt.Util.Bytes.{Bytes}
use libmqtt.Packets.Types.{v311, v5, ConnPacket}
use libmqtt.Client.{
  World, ConnectOptions, AsyncClient, millisecond, default_client, default_connect_options,
  clone_options,
}
use libmqtt.Client.Options
use libmqtt.Client.Options.{SetupError, Applied, Setter, modify, lt_int}
use libmqtt.Client.Settings
use libmqtt.Client.Settings.{
  Setting, setter, apply_all, resume, new_client, made, connect_server, Start, plain_start,
  secure_start, each_start, connect,
}

pub lt_int_irrefl : (m : ℤ) → lt_int m m ≡ false
lt_int_irrefl (pos n) = ground arith
lt_int_irrefl (negsuc n) = ground arith

length-modify :
    (f : ConnPacket → ConnPacket) (i : ℕ) (ps : List ConnPacket)
    → length (modify f i ps) ≡ length ps
unfolding modify
length-modify f i [] = refl
length-modify f zero (p ∷ ps) = refl
length-modify f (suc i) (p ∷ ps) = omega (arith, length-modify f i ps)

module _ {w : World} where
  -- The channels have room for one packet at least, the first delay is a millisecond or more and not
  -- above the largest, the version is one that there is, and the connect packet is there.
  pub record IsValid (c : AsyncClient w) (o : ConnectOptions w) : Type 0 where
    pub send_room : lt_int c.send_buf (pos 1) ≡ false
    pub recv_room : lt_int c.recv_buf (pos 1) ≡ false
    pub first_delay : lt_int o.first_delay (pos millisecond) ≡ false
    pub delays : lt_int o.max_delay o.first_delay ≡ false
    pub version : (o.proto_version ≡ v311) ⊎ (o.proto_version ≡ v5)
    pub packet : o.conn_packet < length c.conn_packets

  abbrev pub AppliedIsValid : Applied w → Type 0
  AppliedIsValid r = IsValid r.client r.options

  on_packet-IsValid :
      (f : ConnPacket → ConnPacket) (c : AsyncClient w) (o : ConnectOptions w)
      → IsValid c o
      → IsValid (Options.on_packet f c o) o
  on_packet-IsValid f c o h = ground (arith, length-modify f o.conn_packet c.conn_packets)

  -- An option that sets the TLS configuration at most.
  with_key-IsValid :
      (name : Bytes) (skip : Bool) (pool : w.CertPool) (r : w.Fault ⊎ w.Certificate)
      (c : AsyncClient w) (o : ConnectOptions w)
      → IsValid c o
      → AppliedIsValid (Options.with_key name skip pool r c o)
  with_key-IsValid name skip pool (inl e) c o h = h
  with_key-IsValid name skip pool (inr k) c o h = ground arith

  with_pool-IsValid :
      (p : Option w.CertPool) (k : w.CertPool → Setter w) (c : AsyncClient w) (o : ConnectOptions w)
      → IsValid c o
      → ((pool : w.CertPool) → AppliedIsValid (k pool c o))
      → AppliedIsValid (Options.with_pool p k c o)
  with_pool-IsValid none k c o h step = h
  with_pool-IsValid (some pool) k c o h step = step pool

  with_text-IsValid :
      (t : w.Fault ⊎ Bytes) (k : Bytes → Setter w) (c : AsyncClient w) (o : ConnectOptions w)
      → IsValid c o
      → ((b : Bytes) → AppliedIsValid (k b c o))
      → AppliedIsValid (Options.with_text t k c o)
  with_text-IsValid (inl e) k c o h step = h
  with_text-IsValid (inr b) k c o h step = step b

  setter-IsValid :
      (x : Setting w) (c : AsyncClient w) (o : ConnectOptions w)
      → IsValid c o
      → AppliedIsValid (setter x c o)
  unfolding setter Options.with_secure_server Options.with_server Options.with_buf_size
      Options.with_conn_handle_func Options.with_pub_handle_func Options.with_sub_handle_func
      Options.with_unsub_handle_func Options.with_net_handle_func Options.with_persist_handle_func
      Options.with_log Options.with_persist Options.with_router Options.with_clean_session
      Options.with_auto_reconnect Options.with_identity Options.with_keepalive
      Options.with_backoff_strategy Options.with_client_id Options.with_will Options.with_tls_reader
      Options.with_tls Options.with_custom_tls Options.with_dial_timeout Options.with_version
      Options.with_conn_packet Options.with_tcp_connector Options.with_web_socket_connector
      Options.with_custom_connector
  setter-IsValid (Settings.tls_reader a b k n s) c o h = with_text-IsValid a _ c o h λ t.
      with_pool-IsValid (w.append_certs t) _ c o h
        λ pool. with_text-IsValid b _ c o h λ key. with_key-IsValid n s pool _ c o h
  setter-IsValid (Settings.tls a b k n s) c o h =
      with_text-IsValid (w.read_file k) _ c o h
        λ t. with_pool-IsValid (w.append_certs t) _ c o h λ pool. with_key-IsValid n s pool _ c o h
  setter-IsValid (Settings.clean_session f) c o h = on_packet-IsValid _ c o h
  setter-IsValid (Settings.identity u p) c o h = on_packet-IsValid _ c o h
  setter-IsValid (Settings.client_id i) c o h = on_packet-IsValid _ c o h
  setter-IsValid (Settings.will t q r m) c o h = on_packet-IsValid _ c o h
  setter-IsValid (Settings.keepalive k f) c o h =
      let kept = on_packet-IsValid (λ p. record p { keepalive = k }) c o h in ground (arith, kept)
  setter-IsValid (Settings.conn_packet p) c o h =
      ground (arith, length-append c.conn_packets (p ∷ []))
  setter-IsValid (Settings.backoff_strategy a b f) c o h =
      ground (arith, lt_int_irrefl (Options.at_least millisecond a))
  setter-IsValid (Settings.persist none) c o h = h
  setter-IsValid (Settings.router none) c o h = h
  setter-IsValid x c o h = ground arith

  resume-IsValid :
      (r : Applied w) (k : Setter w)
      → AppliedIsValid r
      → ((c : AsyncClient w) (o : ConnectOptions w) → IsValid c o → AppliedIsValid (k c o))
      → AppliedIsValid (resume r k)
  resume-IsValid r k h step = elim (Option-cases r.failure) [
    | inl e ↦ rw e (step r.client r.options h)
    | inr (x, e) ↦ rw e h
  ]

  pub apply_all-IsValid :
      (xs : List (Setting w)) (c : AsyncClient w) (o : ConnectOptions w)
      → IsValid c o
      → AppliedIsValid (apply_all xs c o)
  unfolding apply_all
  apply_all-IsValid [] c o h = h
  apply_all-IsValid (x ∷ xs) c o h =
      resume-IsValid (setter x c o) (apply_all xs) (setter-IsValid x c o h) (apply_all-IsValid xs)

  default-IsValid : IsValid (default_client w) (default_connect_options w)
  unfolding default_client default_connect_options
  default-IsValid = ground arith

  abbrev MadeIsValid : SetupError w ⊎ (AsyncClient w × ConnectOptions w) → Type 0
  MadeIsValid (inl e) = Unit
  MadeIsValid (inr (c, o)) = IsValid c o

  made-MadeIsValid : (r : Applied w) → AppliedIsValid r → MadeIsValid (made r)
  made-MadeIsValid r h = elim (Option-cases r.failure) [ inl e ↦ rw e h | inr (x, e) ↦ rw e tt ]

  -- It is started with its own version and first delay.
  abbrev pub StartIsValid : AsyncClient w → Start w → Type 0
  StartIsValid c x =
      IsValid c x.options
      × (x.version ≡ x.options.proto_version)
      × (x.delay ≡ x.options.first_delay)

  each_start-IsValid :
      (c : AsyncClient w) (f : Bytes → Start w) (ss : List Bytes)
      → ((s : Bytes) → StartIsValid c (f s))
      → All (StartIsValid c) (each_start f ss)
  each_start-IsValid c f [] h = tt
  each_start-IsValid c f (s ∷ ss) h = (h s, each_start-IsValid c f ss h)

  connect-IsValid :
      (g : w.Handler) (c : AsyncClient w) (o : ConnectOptions w)
      → IsValid c o
      → All (StartIsValid c) (connect g o c)
  unfolding connect clone_options
  connect-IsValid g c o h =
      All-append _ _ _
        (each_start-IsValid c (plain_start g o) c.servers λ s. (ground (arith, h), refl, refl))
        (each_start-IsValid c (secure_start g o) c.secure_servers
          λ s. (ground (arith, h), refl, refl))

  pub made-IsValid :
      (xs ys : List (Setting w)) (c : AsyncClient w) (o : ConnectOptions w)
      → new_client xs ≡ inr (c, o)
      → IsValid c o × AppliedIsValid (connect_server ys c o)
  unfolding new_client connect_server clone_options
  made-IsValid xs ys c o e =
      let h : IsValid c o =
        subst MadeIsValid e (made-MadeIsValid _ (apply_all-IsValid xs _ _ default-IsValid)) in
      (h, apply_all-IsValid ys c _ (ground (arith, h)))

  -- Whatever options a client is made with, if it is made, it and its options are valid, and so are
  -- the options of any connection that `ConnectServer` or `Connect` starts. `Connect` starts each with
  -- the version and the first delay of its options.
  pub new_client-IsValid :
      (xs ys : List (Setting w)) (g : w.Handler) (c : AsyncClient w) (o : ConnectOptions w)
      → new_client xs ≡ inr (c, o)
      → IsValid c o × AppliedIsValid (connect_server ys c o) × All (StartIsValid c) (connect g o c)
  new_client-IsValid xs ys g c o e =
      let (h, k) = made-IsValid xs ys c o e in (h, k, connect-IsValid g c o h)
