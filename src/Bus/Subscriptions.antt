-- ===== src/Bus/Subscriptions.antt =====
-- `InMemoryEventBus` of swaybot/events.py. A handler is known by its identity, a number, and acts on the bus
-- and a world `W`; what it raises is swallowed, so it is an action like any other.
use swaybot.Prelude.{
  ℕ, ◌+◌, ◌≡◌, arith, String, List, [], ◌∷◌, ◌++◌, ◌==◌, nat_eq, string_eq, if◌then◌else◌,
  when_some, eq_iff,
}
use swaybot.Prelude.Dict.{lookup, insert, get_or, lookup-insert}

abbrev pub Handlers : Type 0
Handlers = List (String × List ℕ)

-- `self._handlers.get(event_type, [])`
abbrev pub handlers_of : String → Handlers → List ℕ
handlers_of event_type bus = get_or event_type bus []

-- `subscribe`: `setdefault(event_type, []).append(handler)`
unfoldable pub subscribe : String → ℕ → Handlers → Handlers
subscribe event_type handler bus =
    insert event_type (handlers_of event_type bus ++ handler ∷ []) bus

-- `list.remove(handler)`; a ValueError is swallowed.
unfoldable pub remove : ℕ → List ℕ → List ℕ
remove handler [] = []
remove handler (first ∷ rest) =
    let removed = remove handler rest in if first == handler then rest else first ∷ removed

-- The function that `subscribe` returns; a KeyError is swallowed.
unfoldable pub unsubscribe : String → ℕ → Handlers → Handlers
unsubscribe event_type handler bus =
    when_some (lookup event_type bus) bus (λ found. insert event_type (remove handler found) bus)

-- The handlers that `publish` calls, in order: those of the type and those of every event.
unfoldable pub called : String → Handlers → List ℕ
called event_type bus = handlers_of event_type bus ++ handlers_of "*" bus

module _ {W : Type 0} (act : ℕ → String → Handlers × W → Handlers × W) where
  -- The loop of `publish` over the list that was built before it.
  unfoldable pub deliver : List ℕ → String → Handlers × W → Handlers × W
  deliver [] event_type state = state
  deliver (handler ∷ rest) event_type state = deliver rest event_type (act handler event_type state)

  -- `publish`
  unfoldable pub publish : String → Handlers × W → Handlers × W
  unfolding called
  publish event_type state = deliver (called event_type state.0) event_type state

-- How often a handler is subscribed.
unfoldable pub subscriptions : ℕ → List ℕ → ℕ
subscriptions handler [] = 0
subscriptions handler (first ∷ rest) =
    (if first == handler then 1 else 0) + subscriptions handler rest

subscriptions-append :
    (h : ℕ) (front back : List ℕ)
    → subscriptions h (front ++ back) ≡ subscriptions h front + subscriptions h back
unfolding subscriptions
subscriptions-append h [] back = omega arith
subscriptions-append h (first ∷ front) back = omega (arith, subscriptions-append h front back)

subscriptions-remove :
    (h other : ℕ) (front : List ℕ)
    → subscriptions other (remove h (front ++ h ∷ [])) ≡ subscriptions other front
unfolding subscriptions remove
subscriptions-remove h other [] = ground arith
subscriptions-remove h other (first ∷ front) =
    ground (arith, subscriptions-remove h other front, subscriptions-append other front (h ∷ []))

handlers_of-insert :
    (t asked : String) (hs : List ℕ) (bus : Handlers)
    → handlers_of asked (insert t hs bus) ≡ (if t == asked then hs else handlers_of asked bus)
handlers_of-insert t asked hs bus = ground (arith, lookup-insert t asked hs bus)

handlers_of-subscribe :
    (t asked : String) (h : ℕ) (bus : Handlers)
    → handlers_of asked (subscribe t h bus)
      ≡ (if t == asked then handlers_of t bus ++ h ∷ [] else handlers_of asked bus)
unfolding subscribe
handlers_of-subscribe t asked h bus = handlers_of-insert t asked _ bus

handlers_of-unsubscribe :
    (t asked : String) (h : ℕ) (bus : Handlers)
    → handlers_of asked (unsubscribe t h bus)
      ≡ (if t == asked then remove h (handlers_of t bus) else handlers_of asked bus)
unfolding unsubscribe remove
handlers_of-unsubscribe t asked h bus =
    ground (arith, lookup-insert t asked (remove h (handlers_of t bus)) bus, eq_iff t asked)

-- A handler that subscribes and unsubscribes leaves, for every type of event, each handler subscribed as
-- often as it was.
pub unsubscribe-subscribe :
    (t asked : String) (h other : ℕ) (bus : Handlers)
    → subscriptions other (handlers_of asked (unsubscribe t h (subscribe t h bus)))
      ≡ subscriptions other (handlers_of asked bus)
unsubscribe-subscribe t asked h other bus = ground (
  arith,
  handlers_of-unsubscribe t asked h (subscribe t h bus),
  handlers_of-subscribe t asked h bus,
  handlers_of-subscribe t t h bus,
  subscriptions-remove h other (handlers_of t bus),
  eq_iff t asked,
  eq_iff t t,
)
