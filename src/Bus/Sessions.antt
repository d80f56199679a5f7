-- ===== src/Bus/Sessions.antt =====
-- `SessionManager` of swaybot/session.py over any storage with streams. Its coroutines call the functions
-- that are here; the path that `create` answers with is left out.
use swaybot.Prelude.{
  ℕ, ◌≡◌, ◌↔◌, refl, ap, ◌∙◌, String, Bool, true, false, Option, none, List, [], ◌∷◌, ◌++◌, Result,
  ok, err, ◌>>=◌, ok-injective, ◌==◌, string_eq, if◌then◌else◌,
}
use swaybot.Json.{Value, Fields, str, obj, arr, nil, end, field}
use swaybot.Storage.Records.{StorageError, empty_key, invalid_key}
use swaybot.Storage.Files.{all_safe, path}
use swaybot.Storage.InMemory
use swaybot.Storage.InMemory.{Data}
use swaybot.Bus.Messages.{InboundMessage}

-- What the manager uses of a `StorageBackend`, with what it relies on.
pub record Streams (S : Type 0) : Type 0 where
  pub create : String → S → Result StorageError S
  pub exists : String → S → Result StorageError Bool
  pub delete : String → S → Result StorageError S
  pub save : String → Value → S → Result StorageError S
  pub list_keys : String → S → List String
  pub append : String → Fields → S → Result StorageError S
  pub load_stream : String → Option ℕ → S → Result StorageError (List Value)
  pub load_stream-append :
      (k : String) (r : Fields) (s t : S)
      → append k r s ≡ ok t
      → load_stream k none t ≡ (load_stream k none s >>= λ rs. ok (rs ++ obj r ∷ []))

pub data SessionError : Type 0 where
  empty_id : SessionError
  invalid_id : String → SessionError
  storage : StorageError → SessionError

-- A message as the manager takes it. Other types of value are refused before they get here.
pub data Message : Type 0 where
  inbound : InboundMessage → Message
  -- role, content, session, final, time
  outbound : String → String → String → Bool → String → Message
  plain : Fields → Message

-- A call of the backend, whose exceptions pass through.
abbrev pub stored : {A : Type 0} → Result StorageError A → Result SessionError A
stored (ok a) = ok a
stored (err e) = err (storage e)

-- `_safe_id`
unfoldable pub safe_id : String → Result SessionError String
safe_id id = if id == "" then err empty_id else if all_safe id then ok id else err (invalid_id id)

-- `data.setdefault(key, value)` for a key that may be there.
unfoldable pub with_default : String → Value → Fields → Fields
with_default key value end = field key value end
with_default key value (field k v rest) =
    let later = with_default key value rest in if k == key then field k v rest else field k v later

-- `asdict`, or a copy.
abbrev pub fields_of : Message → Fields
fields_of (inbound m) = field "role" (str m.role) (
    field "content" (str m.content)
      (field "session_id" (str m.session_id) (field "posted_at" (str m.posted_at) end)))
fields_of (outbound role content session final time) = field "role" (str role) (
    field "content" (str content) (
      field "session_id" (str session)
        (field "final" (Value.bool final) (field "posted_at" (str time) end))))
fields_of (plain fields) = fields

-- `_normalize`
unfoldable pub normalize : String → Message → Fields
unfolding with_default
normalize now message = with_default "timestamp" (str now) (fields_of message)

module _ {S : Type 0} (streams : Streams S) where
  -- `create`
  unfoldable pub create : String → S → Result SessionError S
  create id s = safe_id id >>= λ key. stored (streams.create key s)

  -- `exists`
  unfoldable pub exists : String → S → Result SessionError Bool
  exists id s = safe_id id >>= λ key. stored (streams.exists key s)

  -- `delete`
  unfoldable pub delete : String → S → Result SessionError S
  delete id s = safe_id id >>= λ key. stored (streams.delete key s)

  -- `list_sessions`
  abbrev pub list_sessions : S → List String
  list_sessions s = streams.list_keys "" s

  -- `append`
  unfoldable pub append : String → Message → String → S → Result SessionError S
  append id message now s =
      safe_id id >>= λ key. stored (streams.append key (normalize now message) s)

  -- `load`
  unfoldable pub load : String → Option ℕ → S → Result SessionError (List Value)
  load id limit s = safe_id id >>= λ key. stored (streams.load_stream key limit s)

  -- `clear`
  unfoldable pub clear : String → S → Result SessionError S
  clear id s = safe_id id >>= λ key. stored (streams.save key (arr nil) s)

  pub stored-ok : {A : Type 0} (r : Result StorageError A) (a : A) → stored r ≡ ok a → r ≡ ok a
  stored-ok (ok b) a e = ap ok (ok-injective e)
  stored-ok (err x) a e = cc e

  stored->>= :
      {A B : Type 0} (r : Result StorageError A) (f : A → B)
      → stored (r >>= λ a. ok (f a)) ≡ (stored r >>= λ a. ok (f a))
  stored->>= (ok a) f = refl
  stored->>= (err x) f = refl

  after_append :
      (checked : Result SessionError String) (message : Message) (now : String) (s t : S)
      → (checked >>= λ key. stored (streams.append key (normalize now message) s)) ≡ ok t
      → (checked >>= λ key. stored (streams.load_stream key none t)) ≡ (
          (checked >>= λ key. stored (streams.load_stream key none s)) >>= λ history.
          ok (history ++ obj (normalize now message) ∷ []))
  after_append (ok key) message now s t appended =
      ap stored
        (streams.load_stream-append key (normalize now message) s t (stored-ok _ t appended))
      ∙ stored->>= (streams.load_stream key none s)
          (λ history. history ++ obj (normalize now message) ∷ [])
  after_append (err refused) message now s t appended = refl

  -- Where a message was appended to a session, the history of the session is that of before and the
  -- message, with its time, at the end.
  pub load-append :
      (id : String) (message : Message) (now : String) (s t : S)
      → append id message now s ≡ ok t
      → load id none t
        ≡ (load id none s >>= λ history. ok (history ++ obj (normalize now message) ∷ []))
  unfolding append load
  load-append id message now s t appended = after_append (safe_id id) message now s t appended

-- The manager accepts the ids that name a file, and no others.
pub safe_id-path : (id : String) → (safe_id id ≡ ok id) ↔ (path id ≡ ok id)
unfolding safe_id path
safe_id-path id = agree (id == "") (all_safe id)
  where
    agree :
        (empty safe : Bool)
        → ((if empty then err empty_id else if safe then ok id else err (invalid_id id)) ≡ ok id)
          ↔ ((if empty then err empty_key else if safe then ok id else err (invalid_key id))
              ≡ ok id)
    agree true safe = (λ e. cc e, λ e. cc e)
    agree false true = (λ e. refl, λ e. refl)
    agree false false = (λ e. cc e, λ e. cc e)

-- The in-memory backend is such a storage.
pub load_stream_law :
    (k : String) (r : Fields) (d e : Data)
    → InMemory.append k r d ≡ ok e
    → InMemory.load_stream k none e
      ≡ (InMemory.load_stream k none d >>= λ rs. ok (rs ++ obj r ∷ []))
load_stream_law k r d e appended = (InMemory.load_stream-append k k r d e appended).0

abbrev pub in_memory_streams : Streams Data
in_memory_streams = record {
  create = InMemory.create;
  exists = InMemory.exists;
  delete = InMemory.delete;
  save = InMemory.save;
  list_keys = InMemory.list_keys;
  append = InMemory.append;
  load_stream = InMemory.load_stream;
  load_stream-append = load_stream_law;
}
