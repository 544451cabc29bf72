-- ===== src/Bindings/Callbacks.antt =====
-- c/libmqtt_c.go: the functions that C hands in as handlers, and how they are called.
use libmqtt.Prelude.{
  ℕ, ◌≡◌, refl, List, [], ◌∷◌, ◌++◌, length, Bool, true, false, if◌then◌else◌, Option, none, some,
  ℤ,
}
use libmqtt.Util.Bytes.{Bytes}
use libmqtt.Packets.Types.{Topic}

-- A call of a C function, with the number of the client. A missing error is a NULL.
pub data CCall : Type 0 where
  to_conn_handler : ℤ → Bytes → ℕ → Option Bytes → CCall
  to_pub_handler : ℤ → Bytes → Option Bytes → CCall
  to_sub_handler : ℤ → Bytes → ℕ → Option Bytes → CCall
  to_unsub_handler : ℤ → Bytes → Option Bytes → CCall
  to_net_handler : ℤ → Bytes → Bytes → CCall
  to_persist_handler : ℤ → Bytes → CCall
  to_topic_handler : ℤ → Bytes → ℕ → Bytes → ℕ → CCall

-- The calls that are made, and the texts of `C.CString` that are never freed.
pub record Called : Type 0 where
  pub calls : List CCall
  pub leaked : List Bytes

abbrev pub nothing : Called
nothing = record { calls = []; leaked = [] }

abbrev pub then_called : Called → Called → Called
then_called a b = record { calls = a.calls ++ b.calls; leaked = a.leaked ++ b.leaked }

-- The texts that are made for a call.
abbrev pub error_text : Option Bytes → List Bytes
error_text none = []
error_text (some e) = e ∷ []

abbrev pub texts_of : CCall → List Bytes
texts_of (to_conn_handler client server code e) = server ∷ error_text e
texts_of (to_pub_handler client topic e) = topic ∷ error_text e
texts_of (to_sub_handler client topic qos e) = topic ∷ error_text e
texts_of (to_unsub_handler client topic e) = topic ∷ error_text e
texts_of (to_net_handler client server e) = server ∷ e ∷ []
texts_of (to_persist_handler client e) = e ∷ []
texts_of (to_topic_handler client topic qos msg size) = topic ∷ msg ∷ []

-- `call_conn_handler` and the others, by whether the handler is there. They free the texts behind the
-- call, and do nothing for a NULL.
unfoldable pub call_handler : Bool → CCall → Called
call_handler there call =
    if there
    then record { calls = call ∷ []; leaked = [] }
    else record { calls = []; leaked = texts_of call }

-- The functions that are handed to the client.
module _ (there : Bool) (client : ℤ) where
  unfoldable pub conn_callback : Bytes → ℕ → Option Bytes → Called
  conn_callback server code e = call_handler there (to_conn_handler client server code e)

  unfoldable pub pub_callback : Bytes → Option Bytes → Called
  pub_callback topic e = call_handler there (to_pub_handler client topic e)

  -- A call for each topic.
  unfoldable pub sub_callback : List Topic → Option Bytes → Called
  sub_callback [] e = nothing
  sub_callback (t ∷ ts) e =
      then_called (call_handler there (to_sub_handler client t.name t.qos e)) (sub_callback ts e)

  unfoldable pub unsub_callback : List Bytes → Option Bytes → Called
  unsub_callback [] e = nothing
  unsub_callback (t ∷ ts) e =
      then_called (call_handler there (to_unsub_handler client t e)) (unsub_callback ts e)

  -- Only errors are told.
  unfoldable pub net_callback : Bytes → Option Bytes → Called
  net_callback server none = nothing
  net_callback server (some e) = call_handler there (to_net_handler client server e)

  unfoldable pub persist_callback : Option Bytes → Called
  persist_callback none = nothing
  persist_callback (some e) = call_handler there (to_persist_handler client e)

  unfoldable pub wrap_topic_handler : Bytes → ℕ → Bytes → Called
  wrap_topic_handler topic qos msg =
      call_handler there (to_topic_handler client topic qos msg (length msg))

-- The texts of calls that find no handler.
abbrev pub all_texts : List CCall → List Bytes
all_texts [] = []
all_texts (c ∷ cs) = texts_of c ++ all_texts cs

-- What a handler is told about each topic of a subscription.
abbrev pub sub_calls : ℤ → Option Bytes → List Topic → List CCall
sub_calls client e [] = []
sub_calls client e (t ∷ ts) = to_sub_handler client t.name t.qos e ∷ sub_calls client e ts

-- For the topics of a subscription, the handler from C is called once for each, in order and with the
-- error, and the texts that are made for it are freed; without a handler all of them are lost.
pub sub_callback-sub_calls :
    (client : ℤ) (ts : List Topic) (e : Option Bytes)
    → (sub_callback true client ts e ≡ record { calls = sub_calls client e ts; leaked = [] })
      × (sub_callback false client ts e
          ≡ record { calls = []; leaked = all_texts (sub_calls client e ts) })
unfolding sub_callback call_handler
sub_callback-sub_calls client [] e = (refl, refl)
sub_callback-sub_calls client (t ∷ ts) e =
    let (f, g) = sub_callback-sub_calls client ts e in (rw f refl, rw g refl)
