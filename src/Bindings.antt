-- ===== src/Bindings.antt =====
-- c/libmqtt_c.go and c/options_c.go: the functions for C, with the clients and their options by number.
pub mod Options
pub mod Callbacks
pub mod Calls
pub mod Unset
use libmqtt.Prelude.{
  ℕ, zero, suc, ◌+◌, List, [], ◌∷◌, ◌++◌, Bool, true, false, length, ◌==◌, if◌then◌else◌, Option,
  none, some, ◌⊎◌, inl, inr, ℤ, pos, negsuc,
}
use libmqtt.Util.Bytes.{Bytes}
use libmqtt.Client.{World, AsyncClient, ConnectOptions}
use libmqtt.Client.Options.{SetupError}
use libmqtt.Client.Settings.{Setting, new_client}

-- A `sync.Map` from numbers.
abbrev pub ByNumber : Type 0 → Type 0
ByNumber A = List (ℕ × A)

unfoldable pub value_of : {A : Type 0} → ℕ → ByNumber A → Option A
value_of id [] = none
value_of id ((k, a) ∷ t) = if k == id then some a else value_of id t

unfoldable pub with_value : {A : Type 0} → ℕ → A → ByNumber A → ByNumber A
with_value id a [] = (id, a) ∷ []
with_value id a ((k, b) ∷ t) =
    let rest = with_value id a t in if k == id then (id, a) ∷ t else (k, b) ∷ rest

-- A client is a pointer, which may be nil.
pub record Bindings (w : World) : Type 0 where
  pub client_options : ByNumber (List (Setting w))
  pub clients : ByNumber (Option (AsyncClient w))

-- What `Libmqtt_setup_client` returns: NULL, or a text.
pub data SetupReply (w : World) : Type 0 where
  no_such_client done : SetupReply w
  failed_with : SetupError w → SetupReply w

abbrev pub no_bindings : {w : World} → Bindings w
no_bindings = record { client_options = []; clients = [] }

module _ {w : World} where
  unfoldable pub get_client_options : ℤ → Bindings w → Option (List (Setting w))
  get_client_options (pos id) b = value_of id b.client_options
  get_client_options (negsuc id) b = none

  abbrev pub stored_client : Option (Option (AsyncClient w)) → Option (AsyncClient w)
  stored_client none = none
  stored_client (some c) = c

  unfoldable pub get_client : ℤ → Bindings w → Option (AsyncClient w)
  get_client (pos id) b = stored_client (value_of id b.clients)
  get_client (negsuc id) b = none

  unfoldable pub store_client : ℕ → Option (AsyncClient w) → Bindings w → Bindings w
  store_client id c b = record b { clients = with_value id c b.clients }

  -- The first number from `id` on without options, with fuel.
  unfoldable pub free_number : ℕ → ℕ → ByNumber (List (Setting w)) → Option ℕ
  free_number zero id t = none
  free_number (suc fuel) id t =
      let rest = free_number fuel (suc id) t in
      elim (value_of id t) [ none ↦ some id | some o ↦ rest ]

  abbrev pub numbered : Option ℕ → Bindings w → Bindings w × Option ℕ
  numbered none b = (b, none)
  numbered (some id) b = (record b { client_options = with_value id [] b.client_options }, some id)

  -- `Libmqtt_new_client`: one round more than there are numbers in use.
  unfoldable pub new_client_options : Bindings w → Bindings w × Option ℕ
  new_client_options b = numbered (free_number (suc (length b.client_options)) 1 b.client_options) b

  abbrev pub added : ℤ → Option (List (Setting w)) → Setting w → Bindings w → Bindings w
  added (pos id) (some xs) x b = record b {
    client_options = with_value id (xs ++ x ∷ []) b.client_options;
  }
  added _ _ x b = b

  unfoldable pub add_option : ℤ → Setting w → Bindings w → Bindings w
  add_option id x b = added id (get_client_options id b) x b

  abbrev pub set_up :
      ℤ → SetupError w ⊎ (AsyncClient w × ConnectOptions w) → Bindings w → Bindings w × SetupReply w
  set_up (pos id) (inl e) b = (store_client id none b, failed_with e)
  set_up (negsuc id) (inl e) b = (b, failed_with e)
  set_up id (inr c) b = (b, done)

  abbrev pub set_up_with : ℤ → Option (List (Setting w)) → Bindings w → Bindings w × SetupReply w
  set_up_with id none b = (b, no_such_client)
  set_up_with id (some xs) b = set_up id (new_client xs) b

  unfoldable pub setup_client : ℤ → Bindings w → Bindings w × SetupReply w
  setup_client id b = set_up_with id (get_client_options id b) b
