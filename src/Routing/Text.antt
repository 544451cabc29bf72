-- ===== src/Routing/Text.antt =====
-- router.go, `TextRouter`: which handler a message gets.
use libmqtt.Prelude.{
  ◌≡◌, refl, List, [], ◌∷◌, if◌then◌else◌, Option, none, some, ok, bytes_eq, ◌∙◌, ap,
}
use libmqtt.Util.Bytes.{Bytes}
use libmqtt.Util.Names.{named, named-with_name}
use libmqtt.Packets.Types.{PublishPacket}
use libmqtt.Routing.{
  TopicCall, call_for, TextRouter, text_handle, text_dispatch, text_router, handle_topics,
  handle_topic_msg,
}

module _ {H : Type 0} where
  -- The last handler that was registered for the topic, and else `old`.
  unfoldable pub last_for : Bytes → List (Bytes × Option H) → Option H → Option H
  last_for topic [] old = old
  last_for topic ((t, none) ∷ rs) old = last_for topic rs old
  last_for topic ((t, some h) ∷ rs) old =
      last_for topic rs (if bytes_eq t topic then some h else old)

  -- The call of a packet for the handler of its topic, if there is one.
  abbrev pub calls_of : PublishPacket → Option H → List (TopicCall H)
  calls_of p none = []
  calls_of p (some h) = call_for p h ∷ []

  -- One worker for a packet, with that call.
  unfoldable pub delivered :
      List (Bytes × Option H) → List PublishPacket → List (List (TopicCall H))
  delivered rs [] = []
  delivered rs (p ∷ ps) = calls_of p (last_for p.topic_name rs none) ∷ delivered rs ps

  named-text_handle :
      (topic j : Bytes) (h : H) (r : TextRouter H)
      → named j (text_handle topic h r) ≡ (if bytes_eq topic j then some h else named j r)
  unfolding text_handle
  named-text_handle topic j h r = named-with_name topic j h r

  handle_topics-find :
      (rs : List (Bytes × Option H)) (r : TextRouter H)
      → (r' : TextRouter H) × (handle_topics text_router rs r ≡ ok r')
        × ((j : Bytes) → named j r' ≡ last_for j rs (named j r))
  unfolding handle_topics last_for
  handle_topics-find [] r = (r, refl, λ j. refl)
  handle_topics-find ((t, none) ∷ rs) r = handle_topics-find rs r
  handle_topics-find ((t, some h) ∷ rs) r =
      let (r', e, f) = handle_topics-find rs (text_handle t h r) in
      (r', e, λ j. f j ∙ ap (last_for j rs) (named-text_handle t j h r))

  text_dispatch-calls_of :
      (p : PublishPacket) (r : TextRouter H) → text_dispatch p r ≡ calls_of p (named p.topic_name r)
  unfolding text_dispatch
  text_dispatch-calls_of p r = refl

  handle_topic_msg-delivered :
      (rs : List (Bytes × Option H)) (r : TextRouter H) (ps : List PublishPacket)
      → ((j : Bytes) → named j r ≡ last_for j rs none)
      → handle_topic_msg text_router ps r ≡ delivered rs ps
  unfolding handle_topic_msg delivered
  handle_topic_msg-delivered rs r [] f = refl
  handle_topic_msg-delivered rs r (p ∷ ps) f =
      rw (text_dispatch-calls_of p r, f p.topic_name, handle_topic_msg-delivered rs r ps f) refl

  -- Whatever handlers have been registered with a new text router, one worker is started for each message,
  -- which calls the last handler for its topic, with its topic, QoS and payload, and none if there is none.
  pub handle_topic_msg-handle_topics :
      (rs : List (Bytes × Option H)) (ps : List PublishPacket)
      → (r : TextRouter H) × (handle_topics text_router rs [] ≡ ok r)
        × (handle_topic_msg text_router ps r ≡ delivered rs ps)
  handle_topic_msg-handle_topics rs ps =
      let (r, e, f) = handle_topics-find rs [] in
      (r, e, handle_topic_msg-delivered rs r ps (unfold named in f))
