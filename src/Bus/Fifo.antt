-- ===== src/Bus/Fifo.antt =====
-- The queues of the message bus keep every message, once and in order.
use swaybot.Prelude.{
  ◌≡◌, ◌⊎◌, refl, sym, ap, ◌∙◌, arith, String, Bool, true, false, Option, none, some, List, [], ◌∷◌,
  ◌++◌, ◌==◌, string_eq, eq_iff, if◌then◌else◌, append-nil, append_assoc, Bool-cases, inl, inr,
}
use swaybot.Prelude.Dict.{insert, lookup-insert, lookup-erase}
use swaybot.Bus.Messages.{
  InboundMessage, Queues, waiting, create_session, post, taken, get, close_session, pending_count,
  Call, creating, getting, closing, counting, posting, calls, answered,
}

-- The messages posted to a session, in order.
abbrev pub posted : String → List Call → List InboundMessage
posted id [] = []
posted id (posting message ∷ rest) =
    let later = posted id rest in if message.session_id == id then message ∷ later else later
posted id (_ ∷ rest) = posted id rest

-- The messages that a session got.
abbrev pub received : String → List (String × InboundMessage) → List InboundMessage
received id [] = []
received id ((session, message) ∷ rest) =
    let later = received id rest in if session == id then message ∷ later else later

-- No call closes the session.
abbrev pub stays_open : String → List Call → Bool
stays_open id [] = true
stays_open id (closing session ∷ rest) = if session == id then false else stays_open id rest
stays_open id (_ ∷ rest) = stays_open id rest

waiting-insert :
    (id asked : String) (queue : List InboundMessage) (queues : Queues)
    → waiting asked (insert id queue queues) ≡ (if id == asked then queue else waiting asked queues)
waiting-insert id asked queue queues = ground (arith, lookup-insert id asked queue queues)

waiting-create_session :
    (id asked : String) (queues : Queues)
    → waiting asked (create_session id queues) ≡ waiting asked queues
unfolding create_session
waiting-create_session id asked queues =
    ground (arith, lookup-insert id asked [] queues, eq_iff id asked)

waiting-post :
    (message : InboundMessage) (asked : String) (queues : Queues)
    → waiting asked (post message queues) ≡ (
        if message.session_id == asked
        then waiting asked queues ++ message ∷ []
        else waiting asked queues)
unfolding post
waiting-post message asked queues = ground (
  arith,
  waiting-insert message.session_id asked
      (waiting message.session_id (create_session message.session_id queues) ++ message ∷ [])
      (create_session message.session_id queues),
  waiting-create_session message.session_id asked queues,
  waiting-create_session message.session_id message.session_id queues,
  eq_iff message.session_id asked,
)

-- What a `get` answers and leaves, as seen by a session: nothing came, or the first message of its queue.
abbrev Took : String → String → Queues → Option InboundMessage × Queues → Type 0
Took id asked queues result =
    (result.0 ≡ none) × (waiting asked result.1 ≡ waiting asked queues)
    ⊎ ((m : InboundMessage) × (result.0 ≡ some m)
        × (waiting asked queues
            ≡ (if id == asked then m ∷ waiting asked result.1 else waiting asked result.1)))

taken-Took :
    (id asked : String) (queue : List InboundMessage) (queues : Queues)
    → waiting id queues ≡ queue
    → Took id asked queues (taken id queue queues)
taken-Took id asked [] queues is_queue = inl (refl, refl)
taken-Took id asked (m ∷ rest) queues is_queue =
    inr (m, refl, ground (arith, is_queue, waiting-insert id asked rest queues, eq_iff id asked))

get-Took : (id asked : String) (queues : Queues) → Took id asked queues (get id queues)
unfolding get
get-Took id asked queues =
    let opened : Queues = create_session id queues in
    elim (taken-Took id asked (waiting id opened) opened refl) [
      | inl (nothing, kept) ↦ inl (nothing, kept ∙ waiting-create_session id asked queues)
      | inr (m, got, left) ↦ inr (m, got, sym (waiting-create_session id asked queues) ∙ left)
    ]

received-answered :
    (session id : String) (answer : Option InboundMessage)
    (later : List (String × InboundMessage) × Queues) (before after more : List InboundMessage)
    → (answer ≡ none) × (after ≡ before)
      ⊎ ((m : InboundMessage) × (answer ≡ some m)
          × (before ≡ (if session == id then m ∷ after else after)))
    → received id later.0 ++ waiting id later.1 ≡ after ++ more
    → received id (answered session answer later).0 ++ waiting id (answered session answer later).1
      ≡ before ++ more
received-answered session id none later before after more (inl (nothing, kept)) rest =
    rest ∙ ap (λ q. q ++ more) kept
received-answered session id none later before after more (inr (m, got, left)) rest = cc got
received-answered session id (some n) later before after more (inl (nothing, kept)) rest =
    cc nothing
received-answered session id (some n) later before after more (inr (m, got, left)) rest =
    ground (arith, got, left, rest)

waiting-pending_count :
    (session id : String) (queues : Queues)
    → waiting id (pending_count session queues).1 ≡ waiting id queues
unfolding pending_count
waiting-pending_count = waiting-create_session

waiting-close_session :
    (session id : String) (queues : Queues)
    → (session == id) ≡ false
    → waiting id (close_session session queues) ≡ waiting id queues
unfolding close_session
waiting-close_session session id queues other =
    ground (arith, lookup-erase session id queues, other)

put_behind :
    (mine : Bool) (m : InboundMessage) (queue later : List InboundMessage)
    → (if mine then queue ++ m ∷ [] else queue) ++ later
      ≡ queue ++ (if mine then m ∷ later else later)
put_behind true m queue later = append_assoc queue (m ∷ []) later
put_behind false m queue later = refl

-- What was waiting and what is posted is what is received and what is waiting, in order, for every session
-- that no call closes.
pub received-calls :
    (id : String) (cs : List Call) (queues : Queues)
    → stays_open id cs ≡ true
    → received id (calls cs queues).0 ++ waiting id (calls cs queues).1
      ≡ waiting id queues ++ posted id cs
unfolding calls
received-calls id [] queues open_still = sym (append-nil (waiting id queues))
received-calls id (creating session ∷ rest) queues open_still =
    received-calls id rest _ open_still
    ∙ ap (λ q. q ++ posted id rest) (waiting-create_session session id queues)
received-calls id (counting session ∷ rest) queues open_still =
    received-calls id rest _ open_still
    ∙ ap (λ q. q ++ posted id rest) (waiting-pending_count session id queues)
received-calls id (closing session ∷ rest) queues open_still = elim (Bool-cases (session == id)) [
  | inl e ↦ ground (arith, e, open_still)
  | inr e ↦
      received-calls id rest _ (ground (arith, e, open_still))
      ∙ ap (λ q. q ++ posted id rest) (waiting-close_session session id queues e)
]
received-calls id (posting message ∷ rest) queues open_still =
    received-calls id rest _ open_still
    ∙ ap (λ q. q ++ posted id rest) (waiting-post message id queues)
    ∙ put_behind (message.session_id == id) message (waiting id queues) (posted id rest)
received-calls id (getting session ∷ rest) queues open_still =
    received-answered session id (get session queues).0 (calls rest (get session queues).1)
      (waiting id queues) (waiting id (get session queues).1) (posted id rest)
      (get-Took session id queues) (received-calls id rest (get session queues).1 open_still)
