-- ===== src/Client/Notices.antt =====
-- msg.go, `handleMsg`, and handler.go: the client's handlers, and what messages make of them.
use libmqtt.Prelude.{List, [], ◌∷◌, Option, none, some}
use libmqtt.Session.{Message, pub_msg, sub_msg, unsub_msg, net_msg, persist_msg}

-- `none` is a nil function.
pub record Handlers (H : Type 0) : Type 0 where
  pub pub_handler : Option H
  pub sub_handler : Option H
  pub unsub_handler : Option H
  pub net_handler : Option H
  pub persist_handler : Option H

module _ {H : Type 0} where
  -- The deprecated setters, which replace a handler that is there. `h` is the function around the
  -- caller's, which leaves out the client.
  unfoldable pub handle_pub : H → Handlers H → Handlers H
  handle_pub h s = record s { pub_handler = some h }

  unfoldable pub handle_sub : H → Handlers H → Handlers H
  handle_sub h s = record s { sub_handler = some h }

  unfoldable pub handle_un_sub : H → Handlers H → Handlers H
  handle_un_sub h s = record s { unsub_handler = some h }

  unfoldable pub handle_net : H → Handlers H → Handlers H
  handle_net h s = record s { net_handler = some h }

  unfoldable pub handle_persist : H → Handlers H → Handlers H
  handle_persist h s = record s { persist_handler = some h }

  -- The handler that a message is for.
  unfoldable pub handler_of : Message → Handlers H → Option H
  handler_of (pub_msg topic) s = s.pub_handler
  handler_of (sub_msg topics) s = s.sub_handler
  handler_of (unsub_msg names) s = s.unsub_handler
  handler_of (net_msg server e) s = s.net_handler
  handler_of (persist_msg p e) s = s.persist_handler

  abbrev pub told : Option H → Message → List (H × Message) → List (H × Message)
  told none m rest = rest
  told (some h) m rest = (h, m) ∷ rest

  -- The calls for the messages that were sent, up to the end of the client.
  unfoldable pub handle_msg : List Message → Handlers H → List (H × Message)
  handle_msg [] s = []
  handle_msg (m ∷ ms) s = told (handler_of m s) m (handle_msg ms s)
