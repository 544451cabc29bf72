-- ===== src/Bindings/Unset.antt =====
-- c/options_c.go, `Libmqtt_setup_client`: no client is there for the other functions.
use libmqtt.Prelude.{
  ℕ, ◌≡◌, refl, arith, ◌==◌, if◌then◌else◌, Bool, List, [], ◌∷◌, Option, none, some, ◌⊎◌, inl, inr,
  ℤ, pos, negsuc, Bool-cases,
}
use libmqtt.Client.{World, AsyncClient, ConnectOptions}
use libmqtt.Client.Options.{SetupError}
use libmqtt.Client.Settings.{Setting, new_client}
use libmqtt.Util.Bytes.{Bytes}
use libmqtt.Bindings.Calls
use libmqtt.Bindings.Calls.{Methods, if_there}
use libmqtt.Bindings.{
  ByNumber, value_of, with_value, Bindings, no_bindings, get_client, stored_client, store_client,
  free_number, numbered, new_client_options, added, add_option, get_client_options, set_up,
  set_up_with, setup_client,
}

-- A call from C that changes what is stored.
pub data Call (w : World) : Type 0 where
  creating : Call w
  adding : ℤ → Setting w → Call w
  setting_up : ℤ → Call w

value_of-with_value :
    {A : Type 0} (id j : ℕ) (a : A) (t : ByNumber A)
    → value_of j (with_value id a t) ≡ (if id == j then some a else value_of j t)
unfolding value_of with_value
value_of-with_value id j a [] = refl
value_of-with_value id j a ((k, b) ∷ t) = ground (arith, value_of-with_value id j a t)

module _ {w : World} where
  unfoldable pub run : List (Call w) → Bindings w → Bindings w
  run [] b = b
  run (creating ∷ cs) b = run cs (new_client_options b).0
  run (adding id x ∷ cs) b = run cs (add_option id x b)
  run (setting_up id ∷ cs) b = run cs (setup_client id b).0

  -- Every number leads to the nil client at most.
  abbrev HasNone : Bindings w → Type 0
  HasNone b = (id : ℕ) → stored_client (value_of id b.clients) ≡ none

  store_client-HasNone : (id : ℕ) (b : Bindings w) → HasNone b → HasNone (store_client id none b)
  unfolding store_client
  store_client-HasNone id b h j = elim (Bool-cases (id == j)) [
    | inl e ↦ rw (value_of-with_value id j none b.clients, e) refl
    | inr e ↦ rw (value_of-with_value id j none b.clients, e) (h j)
  ]

  numbered-HasNone : (n : Option ℕ) (b : Bindings w) → HasNone b → HasNone (numbered n b).0
  numbered-HasNone none b h = h
  numbered-HasNone (some id) b h = h

  added-HasNone :
      (id : ℤ) (o : Option (List (Setting w))) (x : Setting w) (b : Bindings w)
      → HasNone b
      → HasNone (added id o x b)
  added-HasNone (pos id) (some xs) x b h = h
  added-HasNone (pos id) none x b h = h
  added-HasNone (negsuc id) o x b h = h

  set_up-HasNone :
      (id : ℤ) (r : SetupError w ⊎ (AsyncClient w × ConnectOptions w)) (b : Bindings w)
      → HasNone b
      → HasNone (set_up id r b).0
  set_up-HasNone (pos id) (inl e) b h = store_client-HasNone id b h
  set_up-HasNone (negsuc id) (inl e) b h = h
  set_up-HasNone (pos id) (inr c) b h = h
  set_up-HasNone (negsuc id) (inr c) b h = h

  set_up_with-HasNone :
      (id : ℤ) (o : Option (List (Setting w))) (b : Bindings w)
      → HasNone b
      → HasNone (set_up_with id o b).0
  set_up_with-HasNone id none b h = h
  set_up_with-HasNone id (some xs) b h = set_up-HasNone id (new_client xs) b h

  run-HasNone : (cs : List (Call w)) (b : Bindings w) → HasNone b → HasNone (run cs b)
  unfolding run new_client_options add_option setup_client
  run-HasNone [] b h = h
  run-HasNone (creating ∷ cs) b h =
      run-HasNone cs _ (numbered-HasNone (free_number _ 1 b.client_options) b h)
  run-HasNone (adding id x ∷ cs) b h =
      run-HasNone cs _ (added-HasNone id (get_client_options id b) x b h)
  run-HasNone (setting_up id ∷ cs) b h =
      run-HasNone cs _ (set_up_with-HasNone id (get_client_options id b) b h)

  get_client-run : (cs : List (Call w)) (id : ℤ) → get_client id (run cs no_bindings) ≡ none
  unfolding get_client
  get_client-run cs (pos id) = run-HasNone cs no_bindings (unfold value_of in λ j. refl) id
  get_client-run cs (negsuc id) = refl

  -- Whatever clients are created, given options and set up from C, none of them connects, gets a handler,
  -- subscribes, publishes or unsubscribes, and none is waited for or destroyed.
  pub run-nothing :
      {S : Type 0} (methods : Methods w S) (cs : List (Call w)) (id : ℤ) (topic payload : Bytes)
      (qos : ℤ) (force there : Bool) (s : S)
      → let b = run cs no_bindings in
        (Calls.subscribe methods b id topic qos s ≡ s)
        × (Calls.publish methods b id topic qos payload s ≡ s)
        × (Calls.unsubscribe methods b id topic s ≡ s)
        × (Calls.wait methods b id s ≡ s)
        × (Calls.destroy methods b id force s ≡ s)
        × (Calls.connect methods b id there s ≡ s)
        × (Calls.handle methods b id topic there s ≡ s)
        × (Calls.set_pub_handler methods b id there s ≡ s)
        × (Calls.set_sub_handler methods b id there s ≡ s)
        × (Calls.set_unsub_handler methods b id there s ≡ s)
        × (Calls.set_net_handler methods b id there s ≡ s)
        × (Calls.set_persist_handler methods b id there s ≡ s)
  unfolding Calls.subscribe Calls.publish Calls.unsubscribe Calls.wait Calls.destroy Calls.connect
      Calls.handle Calls.set_pub_handler Calls.set_sub_handler Calls.set_unsub_handler
      Calls.set_net_handler Calls.set_persist_handler
  run-nothing methods cs id topic payload qos force there s =
      let e = get_client-run cs id in
      let none_there : (f : AsyncClient w → _ → _)
          → if_there (get_client id (run cs no_bindings)) f s ≡ s =
        λ f. rw e refl in
      (
        none_there _,
        none_there _,
        none_there _,
        none_there _,
        none_there _,
        none_there _,
        none_there _,
        none_there _,
        none_there _,
        none_there _,
        none_there _,
        none_there _,
      )
