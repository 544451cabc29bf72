-- ===== src/Routing.antt =====
-- router.go, with the part of client_async.go that registers handlers and hands packets to the router.
pub mod Text
use libmqtt.Prelude.{
  ℕ, List, [], ◌∷◌, ◌++◌, Bool, true, false, if◌then◌else◌, Option, none, some, Result, ok, panic,
  ◌>>=◌, bytes_eq,
}
use libmqtt.Util.Bytes.{Bytes}
use libmqtt.Util.Names.{ByName, named, with_name}
use libmqtt.Packets.Types.{PublishPacket}

-- A call of a handler that was registered for a topic.
pub record TopicCall (H : Type 0) : Type 0 where
  pub handler : H
  pub topic : Bytes
  pub qos : ℕ
  pub payload : Bytes

abbrev pub call_for : {H : Type 0} → PublishPacket → H → TopicCall H
call_for p h = record { handler = h; topic = p.topic_name; qos = p.qos; payload = p.payload }

-- `TopicRouter`: a router's state after `Handle`, which may end the program, and the calls of `Dispatch`.
pub record TopicRouter (H : Type 0) (R : Type 0) : Type 0 where
  pub handle : Bytes → H → R → Result R
  pub dispatch : PublishPacket → R → List (TopicCall H)

-- One handler for a topic, and any number of patterns with theirs.
abbrev pub TextRouter : Type 0 → Type 0
TextRouter = ByName

abbrev pub RegexRouter : Type 0 → Type 0 → Type 0
RegexRouter Pattern H = List (Pattern × H)

module _ {H : Type 0} where
  -- `StandardRouter`.
  abbrev pub standard_router : TopicRouter H (Unit {0})
  standard_router = record { handle = λ topic h r. ok r; dispatch = λ p r. [] }

  unfoldable pub text_handle : Bytes → H → TextRouter H → TextRouter H
  text_handle topic h r = with_name topic h r

  unfoldable pub text_dispatch : PublishPacket → TextRouter H → List (TopicCall H)
  text_dispatch p r = elim (named p.topic_name r) [ none ↦ [] | some h ↦ call_for p h ∷ [] ]

  abbrev pub text_router : TopicRouter H (TextRouter H)
  text_router = record {
    handle = λ topic h r. ok (text_handle topic h r);
    dispatch = text_dispatch;
  }

  -- `RegexRouter`, over `regexp.MustCompile`, which panics on a text that is no pattern, and `MatchString`.
  -- Each pattern that is compiled is a pointer of its own, and so a key of its own.
  module _ {Pattern : Type 0} (compile : Bytes → Option Pattern)
      (match_string : Pattern → Bytes → Bool) where
    abbrev pub compiled :
        Option Pattern → H → RegexRouter Pattern H → Result (RegexRouter Pattern H)
    compiled none h r = panic
    compiled (some x) h r = ok (r ++ (x, h) ∷ [])

    unfoldable pub regex_dispatch : PublishPacket → RegexRouter Pattern H → List (TopicCall H)
    regex_dispatch p [] = []
    regex_dispatch p ((x, h) ∷ r) =
        let rest = regex_dispatch p r in
        if match_string x p.topic_name then call_for p h ∷ rest else rest

    abbrev pub regex_router : TopicRouter H (RegexRouter Pattern H)
    regex_router = record {
      handle = λ topic h r. compiled (compile topic) h r;
      dispatch = regex_dispatch;
    }

  module _ {R : Type 0} (router : TopicRouter H R) where
    -- `HandleTopic`, called in order. A nil handler is not registered.
    abbrev pub handle_topic : Bytes → Option H → R → Result R
    handle_topic topic none r = ok r
    handle_topic topic (some h) r = router.handle topic h r

    unfoldable pub handle_topics : List (Bytes × Option H) → R → Result R
    handle_topics [] r = ok r
    handle_topics ((topic, h) ∷ rs) r = handle_topic topic h r >>= λ r'. handle_topics rs r'

    -- `handleTopicMsg`, for the packets that `logic` has passed on: the workers that it starts, one for
    -- each packet, and the calls that each of them makes. Workers run side by side, in no order.
    unfoldable pub handle_topic_msg : List PublishPacket → R → List (List (TopicCall H))
    handle_topic_msg [] r = []
    handle_topic_msg (p ∷ ps) r = router.dispatch p r ∷ handle_topic_msg ps r
