-- ===== src/Console/Conn/Clean.antt =====
-- cmd/libmqtt/conn.go: the session that the console asks for.
use libmqtt.Prelude.{
  ◌≡◌, refl, Bool, true, false, List, [], ◌∷◌, ◌++◌, length, ◌==◌, if◌then◌else◌, Option, none,
  some, ◌⊎◌, inl, inr, ℤ, bytes_eq, bytes_eq_sound, All, All-append, Option-cases, Bool-cases,
}
use libmqtt.Util.Bytes.{Bytes}
use libmqtt.Packets.Types.{ConnPacket}
use libmqtt.Client.{
  World, ConnectOptions, AsyncClient, default_client, default_connect_options, empty_conn_packet,
}
use libmqtt.Client.Options
use libmqtt.Client.Options.{SetupError, Applied, Setter, with_text, with_pool, with_key, lt_int}
use libmqtt.Client.Settings
use libmqtt.Client.Settings.{
  Setting, pub_handle_func, conn_handle_func, unsub_handle_func, net_handle_func, sub_handle_func,
  clean_session, tls, will, server, setter, resume, apply_all,
}
use libmqtt.Client.Settings.Shared.{packet_at, packet_at-modify}
use libmqtt.Console.Words.{split}
use libmqtt.Console.Types.{Handlers, Text, Action, Console}
use libmqtt.Console.Conn.{
  key_clean, yes, Wishes, no_wishes, with_will_qos, set_wish, wish, and_next, wishes_of,
  settings_of, made, all_settings, new_client, connected, wishes, exec_conn,
}

clean_wish : (key : Bytes) → bytes_eq key key_clean ≡ true → bytes_eq key yes ≡ false
unfolding bytes_eq
clean_wish key h = rw (bytes_eq_sound key key_clean h) refl

abbrev pub HasNoWish : ConnPacket → Type 0
HasNoWish p = (p.clean_session ≡ false) × (p.client_id ≡ [])

module _ {w : World} where
  -- The connect packet is there, with no wish for a clean session and no client id.
  abbrev pub IsUnclean : AsyncClient w → ConnectOptions w → Type 0
  IsUnclean c o = (p : ConnPacket) × (packet_at o.conn_packet c.conn_packets ≡ some p) × HasNoWish p

  abbrev pub ConsoleIsUnclean : Console w → Type 0
  ConsoleIsUnclean none = Unit
  ConsoleIsUnclean (some (c, o)) = IsUnclean c o

  abbrev AppliedIsUnclean : Applied w → Type 0
  AppliedIsUnclean r = IsUnclean r.client r.options

  -- The options that the console gives.
  abbrev IsHarmless : Setting w → Type 0
  IsHarmless (clean_session b) = b ≡ false
  IsHarmless (pub_handle_func h) = Unit
  IsHarmless (conn_handle_func h) = Unit
  IsHarmless (unsub_handle_func h) = Unit
  IsHarmless (net_handle_func h) = Unit
  IsHarmless (sub_handle_func h) = Unit
  IsHarmless (tls a b c n s) = Unit
  IsHarmless (will t q r p) = Unit
  IsHarmless (server ss) = Unit
  IsHarmless _ = ⊥

  on_packet-IsUnclean :
      (f : ConnPacket → ConnPacket) (c : AsyncClient w) (o : ConnectOptions w)
      → ((p : ConnPacket) → HasNoWish p → HasNoWish (f p))
      → IsUnclean c o
      → IsUnclean (Options.on_packet f c o) o
  on_packet-IsUnclean f c o h (p, e, k) =
      (f p, packet_at-modify f o.conn_packet c.conn_packets p e, h p k)

  -- A step on the way to the certificate, whatever it gives.
  with_text-IsUnclean :
      (r : w.Fault ⊎ Bytes) (k : Bytes → Setter w) (c : AsyncClient w) (o : ConnectOptions w)
      → IsUnclean c o
      → ((b : Bytes) → AppliedIsUnclean (k b c o))
      → AppliedIsUnclean (with_text r k c o)
  with_text-IsUnclean (inl e) k c o h g = h
  with_text-IsUnclean (inr b) k c o h g = g b

  with_pool-IsUnclean :
      (r : Option w.CertPool) (k : w.CertPool → Setter w) (c : AsyncClient w) (o : ConnectOptions w)
      → IsUnclean c o
      → ((pool : w.CertPool) → AppliedIsUnclean (k pool c o))
      → AppliedIsUnclean (with_pool r k c o)
  with_pool-IsUnclean none k c o h g = h
  with_pool-IsUnclean (some pool) k c o h g = g pool

  with_key-IsUnclean :
      (name : Bytes) (skip : Bool) (pool : w.CertPool) (r : w.Fault ⊎ w.Certificate)
      (c : AsyncClient w) (o : ConnectOptions w)
      → IsUnclean c o
      → AppliedIsUnclean (with_key name skip pool r c o)
  with_key-IsUnclean name skip pool (inl e) c o h = h
  with_key-IsUnclean name skip pool (inr cert) c o h = h

  setter-IsUnclean :
      (x : Setting w) (c : AsyncClient w) (o : ConnectOptions w)
      → IsHarmless x
      → IsUnclean c o
      → AppliedIsUnclean (setter x c o)
  unfolding setter Options.with_clean_session Options.with_pub_handle_func
      Options.with_conn_handle_func Options.with_unsub_handle_func Options.with_net_handle_func
      Options.with_sub_handle_func Options.with_tls Options.with_will Options.with_server
  setter-IsUnclean (clean_session b) c o h k = on_packet-IsUnclean _ c o (λ p e. (h, e.1)) k
  setter-IsUnclean (pub_handle_func f) c o h k = k
  setter-IsUnclean (conn_handle_func f) c o h k = k
  setter-IsUnclean (unsub_handle_func f) c o h k = k
  setter-IsUnclean (net_handle_func f) c o h k = k
  setter-IsUnclean (sub_handle_func f) c o h k = k
  setter-IsUnclean (will t q r p) c o h k = on_packet-IsUnclean _ c o (λ p e. e) k
  setter-IsUnclean (server ss) c o h k = k
  setter-IsUnclean (tls cert key ca name skip) c o h k =
      with_text-IsUnclean (w.read_file ca) _ c o k λ b.
        with_pool-IsUnclean (w.append_certs b) _ c o k
          λ pool. with_key-IsUnclean name skip pool (w.load_x509_key_pair cert key) c o k
  setter-IsUnclean _ c o h k = absurd h

  resume-IsUnclean :
      (r : Applied w) (k : Setter w)
      → AppliedIsUnclean r
      → AppliedIsUnclean (k r.client r.options)
      → AppliedIsUnclean (resume r k)
  resume-IsUnclean r k h g = elim (Option-cases r.failure) [ inl e ↦ rw e g | inr (x, e) ↦ rw e h ]

  apply_all-IsUnclean :
      (xs : List (Setting w)) (c : AsyncClient w) (o : ConnectOptions w)
      → All IsHarmless xs
      → IsUnclean c o
      → AppliedIsUnclean (apply_all xs c o)
  unfolding apply_all
  apply_all-IsUnclean [] c o h k = k
  apply_all-IsUnclean (x ∷ xs) c o (h, hs) k =
      let r = setter x c o in
      let g = setter-IsUnclean x c o h k in
      resume-IsUnclean r (apply_all xs) g (apply_all-IsUnclean xs r.client r.options hs g)

  -- The options that are set so far are harmless, where there are some.
  data WishesAreHarmless : Text w ⊎ Wishes w → Type 0 where
    refused : (t : Text w) → WishesAreHarmless (inl t)
    granted : (o : Wishes w) → All IsHarmless o.options → WishesAreHarmless (inr o)

  if-AreHarmless :
      (b : Bool) (x y : Text w ⊎ Wishes w)
      → (b ≡ true → WishesAreHarmless x)
      → WishesAreHarmless y
      → WishesAreHarmless (if b then x else y)
  if-AreHarmless true x y h k = h refl
  if-AreHarmless false x y h k = k

  with_will_qos-AreHarmless :
      (q : Option ℤ) (o : Wishes w)
      → All IsHarmless o.options
      → WishesAreHarmless (with_will_qos q o)
  with_will_qos-AreHarmless none o h = refused _
  with_will_qos-AreHarmless (some q) o h = if-AreHarmless _ _ _ (λ e. refused _) (granted _ h)

  clean_wish-IsHarmless :
      (key : Bytes) (xs : List (Setting w))
      → bytes_eq key key_clean ≡ true
      → All IsHarmless xs
      → All IsHarmless (xs ++ clean_session (bytes_eq key yes) ∷ [])
  clean_wish-IsHarmless key xs e h =
      All-append IsHarmless xs (clean_session (bytes_eq key yes) ∷ []) h (clean_wish key e, tt)

  set_wish-AreHarmless :
      (key value : Bytes) (o : Wishes w)
      → All IsHarmless o.options
      → WishesAreHarmless (set_wish key value o)
  unfolding set_wish
  set_wish-AreHarmless key value o h =
      search (if-AreHarmless, granted, with_will_qos-AreHarmless, clean_wish-IsHarmless) depth 20

  wish-AreHarmless :
      (v : Bytes) (kv : List Bytes) (o : Wishes w)
      → All IsHarmless o.options
      → WishesAreHarmless (wish v kv o)
  wish-AreHarmless v (key ∷ value ∷ []) o h = set_wish-AreHarmless key value o h
  wish-AreHarmless v [] o h = refused _
  wish-AreHarmless v (key ∷ []) o h = refused _
  wish-AreHarmless v (key ∷ value ∷ x ∷ xs) o h = refused _

  and_next-AreHarmless :
      (r : Text w ⊎ Wishes w) (k : Wishes w → Text w ⊎ Wishes w)
      → WishesAreHarmless r
      → ((o : Wishes w) → All IsHarmless o.options → WishesAreHarmless (k o))
      → WishesAreHarmless (and_next r k)
  and_next-AreHarmless (inl t) k h g = refused t
  and_next-AreHarmless (inr o) k (granted _ h) g = g o h

  wishes_of-AreHarmless :
      (vs : List Bytes) (o : Wishes w)
      → All IsHarmless o.options
      → WishesAreHarmless (wishes_of vs o)
  unfolding wishes_of
  wishes_of-AreHarmless [] o h = granted o h
  wishes_of-AreHarmless (v ∷ vs) o h =
      and_next-AreHarmless _ (wishes_of vs) (wish-AreHarmless v (split b'=' v) o h)
        (wishes_of-AreHarmless vs)

  one_if : (b : Bool) (x : Setting w) → IsHarmless x → All IsHarmless (if b then x ∷ [] else [])
  one_if true x h = (h, tt)
  one_if false x h = tt

  settings_of-AreHarmless :
      (o : Wishes w) → All IsHarmless o.options → All IsHarmless (settings_of o)
  unfolding settings_of
  settings_of-AreHarmless o h = All-append IsHarmless o.options _ h (
      All-append IsHarmless (if o.ssl then _ else []) _ (one_if o.ssl _ tt) (one_if o.is_will _ tt))

module _ {w : World} (h : Handlers w) where
  made-IsUnclean :
      (before : List (Action w)) (r : Applied w)
      → AppliedIsUnclean r
      → ConsoleIsUnclean (made h before (Settings.made r)).client
  made-IsUnclean before r k = elim (Option-cases r.failure) [
    | inl e ↦ rw e k
    | inr (x, e) ↦ rw e tt
  ]

  new_client-IsUnclean :
      (xs : List (Setting w)) (c : Console w)
      → All IsHarmless xs
      → ConsoleIsUnclean (new_client h xs c).client
  unfolding new_client Settings.new_client all_settings default_client default_connect_options
      packet_at
  new_client-IsUnclean xs c k =
      made-IsUnclean _
        (apply_all (all_settings h xs) (default_client w) (default_connect_options w))
        (apply_all-IsUnclean (all_settings h xs) _ _ (tt, (tt, (tt, (tt, (tt, k)))))
          (empty_conn_packet, refl, (refl, refl)))

  connected-IsUnclean :
      (address : Bytes) (r : Text w ⊎ Wishes w) (c : Console w)
      → WishesAreHarmless r
      → ConsoleIsUnclean c
      → ConsoleIsUnclean (connected h address r c).client
  connected-IsUnclean address (inl t) c k g = g
  connected-IsUnclean address (inr o) c (granted _ k) g =
      new_client-IsUnclean _ c
        (All-append IsHarmless (settings_of o) _ (settings_of-AreHarmless o k) (tt, tt))

  wishes-AreHarmless : (args : List Bytes) → WishesAreHarmless (wishes h args)
  wishes-AreHarmless (text ∷ []) = wishes_of-AreHarmless (split b',' text) no_wishes tt
  wishes-AreHarmless [] = granted _ tt
  wishes-AreHarmless (x ∷ y ∷ args) = granted _ tt

  pub exec_conn-IsUnclean :
      (args : List Bytes) (c : Console w)
      → ConsoleIsUnclean c
      → ConsoleIsUnclean (exec_conn h args c).client
  unfolding exec_conn
  exec_conn-IsUnclean [] c g = g
  exec_conn-IsUnclean (address ∷ args) c g = elim (Bool-cases (length (split b':' address) == 2)) [
    | inl e ↦ rw e (connected-IsUnclean address (wishes h args) c (wishes-AreHarmless args) g)
    | inr e ↦ rw e g
  ]
