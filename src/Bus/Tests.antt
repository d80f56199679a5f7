-- ===== src/Bus/Tests.antt =====
-- Subscriptions, queues and sessions on small inputs.
use swaybot.Prelude.{◌≡◌, refl, none, List, [], ◌∷◌, ◌++◌, string_eq, nat_eq}
use swaybot.Prelude.Dict.{insert, lookup}
use swaybot.Json.{arr, cons, nil, str, obj, end, field}
use swaybot.Storage.Records.{items_snoc}
use swaybot.Storage.InMemory
use swaybot.Storage.InMemory.{Data, safe_key}
use swaybot.Bus.Subscriptions.{
  Handlers, handlers_of, subscribe, unsubscribe, remove, subscriptions, unsubscribe-subscribe,
  called,
}
use swaybot.Bus.Messages.{
  InboundMessage, posting, getting, counting, calls, waiting, post, get, create_session,
}
use swaybot.Bus.Fifo.{received, posted, received-calls}
use swaybot.Bus.Sessions
use swaybot.Bus.Histories.{Post, append_all, said, followed, IsStamped, load-append_all}
use swaybot.Bus.Sessions.{
  in_memory_streams, plain, inbound, normalize, with_default, safe_id, safe_id-path,
}

abbrev bus : Handlers
bus = ("step", 1 ∷ 2 ∷ []) ∷ ("*", 3 ∷ []) ∷ []

unsubscribe-subscribe_example :
    subscriptions 1 (handlers_of "step" (unsubscribe "step" 1 (subscribe "step" 1 bus)))
    ≡ subscriptions 1 (handlers_of "step" bus)
unsubscribe-subscribe_example = unsubscribe-subscribe "step" "step" 1 1 bus

-- A handler that was there already changes its place.
resubscribed : handlers_of "step" (unsubscribe "step" 1 (subscribe "step" 1 bus)) ≡ 2 ∷ 1 ∷ []
unfolding unsubscribe subscribe remove insert lookup
resubscribed = refl

-- An event of the type "*" reaches the handlers of every event twice.
twice : called "*" bus ≡ 3 ∷ 3 ∷ []
unfolding called lookup
twice = refl

abbrev hello : InboundMessage
hello = record { role = "user"; content = "hello"; session_id = "a"; posted_at = "t" }

abbrev bye : InboundMessage
bye = record { role = "user"; content = "bye"; session_id = "a"; posted_at = "u" }

received-calls_example :
    received "a" (calls (posting hello ∷ posting bye ∷ getting "a" ∷ counting "b" ∷ []) []).0
      ++ waiting "a" (calls (posting hello ∷ posting bye ∷ getting "a" ∷ counting "b" ∷ []) []).1
    ≡ waiting "a" [] ++ posted "a" (posting hello ∷ posting bye ∷ getting "a" ∷ counting "b" ∷ [])
received-calls_example =
    received-calls "a" (posting hello ∷ posting bye ∷ getting "a" ∷ counting "b" ∷ []) [] refl

first_out : received "a" (calls (posting hello ∷ posting bye ∷ getting "a" ∷ []) []).0 ≡ hello ∷ []
unfolding calls post get create_session insert lookup
first_out = refl

abbrev kept : Data
kept =
    ("a", arr (cons (obj (field "content" (str "hi") (field "timestamp" (str "now") end))) nil))
    ∷ []

abbrev posts : List Post
posts =
    record { id = "a"; message = plain (field "content" (str "hi") end); now = "now" }
    ∷ record { id = "b"; message = inbound bye; now = "now" }
    ∷ record { id = "a"; message = plain (field "timestamp" (str "then") end); now = "later" }
    ∷ []

abbrev after_posts : Data
after_posts =
    (
      "a",
      arr (
          cons (obj (field "content" (str "hi") (field "timestamp" (str "now") end)))
            (cons (obj (field "timestamp" (str "then") end)) nil)),
    )
    ∷ ("b", arr (cons (obj (normalize "now" (inbound bye))) nil))
    ∷ []

load-append_all_example :
    (Sessions.load in_memory_streams "a" none after_posts
      ≡ followed (Sessions.load in_memory_streams "a" none []) (said "a" posts))
    × ((p : Post) → IsStamped p (normalize p.now p.message))
unfolding append_all Sessions.append safe_id normalize with_default InMemory.append safe_key insert
    lookup items_snoc
load-append_all_example = load-append_all "a" posts [] after_posts refl
