-- ===== src/Bus/Messages.antt =====
-- `MessageBus` of swaybot/bus.py: a queue for each session. The locks only guard what the caller does.
use swaybot.Prelude.{
  ℕ, String, Bool, Option, none, some, List, [], ◌∷◌, ◌++◌, length, if◌then◌else◌,
}
use swaybot.Prelude.Dict.{insert, erase, contains, get_or}

pub record InboundMessage : Type 0 where
  pub role : String
  pub content : String
  pub session_id : String
  pub posted_at : String

abbrev pub Queues : Type 0
Queues = List (String × List InboundMessage)

-- The messages that wait in a session; none where there is no such session.
abbrev pub waiting : String → Queues → List InboundMessage
waiting id queues = get_or id queues []

-- `create_session`
unfoldable pub create_session : String → Queues → Queues
create_session id queues = if contains id queues then queues else insert id [] queues

-- `session_exists`
abbrev pub session_exists : String → Queues → Bool
session_exists id queues = contains id queues

-- `post`
unfoldable pub post : InboundMessage → Queues → Queues
post message queues =
    let open_queues = create_session message.session_id queues in
    insert message.session_id (waiting message.session_id open_queues ++ message ∷ []) open_queues

-- What `asyncio.Queue.get` makes of a queue: `none` where nothing comes before the time-out.
abbrev pub taken : String → List InboundMessage → Queues → Option InboundMessage × Queues
taken id [] queues = (none, queues)
taken id (first ∷ rest) queues = (some first, insert id rest queues)

-- `get`
unfoldable pub get : String → Queues → Option InboundMessage × Queues
get id queues =
    let open_queues = create_session id queues in taken id (waiting id open_queues) open_queues

-- `close_session`
unfoldable pub close_session : String → Queues → Queues
close_session id queues = erase id queues

-- `pending_count`
unfoldable pub pending_count : String → Queues → ℕ × Queues
pending_count id queues =
    let open_queues = create_session id queues in (length (waiting id open_queues), open_queues)

-- The calls of the bus, in the order in which the event loop takes them.
pub data Call : Type 0 where
  creating getting closing counting : String → Call
  posting : InboundMessage → Call

-- What the answer of a `get` adds to the answers of the later calls.
abbrev pub answered :
    String
    → Option InboundMessage
    → List (String × InboundMessage) × Queues
    → List (String × InboundMessage) × Queues
answered id none later = later
answered id (some message) later = ((id, message) ∷ later.0, later.1)

-- The messages that the calls answered with, with their sessions, and the queues.
unfoldable pub calls : List Call → Queues → List (String × InboundMessage) × Queues
calls [] queues = ([], queues)
calls (creating id ∷ rest) queues = calls rest (create_session id queues)
calls (closing id ∷ rest) queues = calls rest (close_session id queues)
calls (counting id ∷ rest) queues = calls rest (pending_count id queues).1
calls (posting message ∷ rest) queues = calls rest (post message queues)
calls (getting id ∷ rest) queues = let got = get id queues in answered id got.0 (calls rest got.1)
