-- ===== src/Bus/Histories.antt =====
-- The histories that `SessionManager` of swaybot/session.py keeps on the in-memory backend.
use swaybot.Prelude.{
  ◌≡◌, ◌≢◌, refl, ap, sym, ◌∙◌, String, none, some, when_some, List, [], ◌∷◌, ◌++◌, append-nil,
  append_assoc, arith, Result, ok, err, ◌>>=◌, >>=-eq-ok, Result-cases, Bool-cases, inl, inr, ◌==◌,
  string_eq, eq_iff, if◌then◌else◌,
}
use swaybot.Json.{Value, Fields, str, obj, end, field, field_of}
use swaybot.Storage.InMemory
use swaybot.Storage.InMemory.{Data}
use swaybot.Bus.Sessions.{
  SessionError, Message, safe_id, fields_of, with_default, normalize, stored-ok, append, load,
  load-append, in_memory_streams,
}

-- One call of `append`: the session, the message, and the time.
pub record Post : Type 0 where
  pub id : String
  pub message : Message
  pub now : String

-- The calls in their order, up to one that raises.
unfoldable pub append_all : List Post → Data → Result SessionError Data
append_all [] d = ok d
append_all (p ∷ ps) d = append in_memory_streams p.id p.message p.now d >>= λ e. append_all ps e

-- The record of a call, if it is one of the session.
abbrev pub record_for : String → Post → List Value
record_for id p = if p.id == id then obj (normalize p.now p.message) ∷ [] else []

-- What the calls say to a session.
abbrev pub said : String → List Post → List Value
said id [] = []
said id (p ∷ ps) = record_for id p ++ said id ps

-- A history with records behind it.
abbrev pub followed :
    Result SessionError (List Value) → List Value → Result SessionError (List Value)
followed history records = history >>= λ rs. ok (rs ++ records)

followed-nil : (history : Result SessionError (List Value)) → followed history [] ≡ history
followed-nil (ok rs) = ap ok (append-nil rs)
followed-nil (err e) = refl

followed-followed :
    (history : Result SessionError (List Value)) (first later : List Value)
    → followed (followed history first) later ≡ followed history (first ++ later)
followed-followed (ok rs) first later = ap ok (append_assoc rs first later)
followed-followed (err e) first later = refl

safe_id-ok : (id key : String) → safe_id id ≡ ok key → key ≡ id
unfolding safe_id
safe_id-ok id key h = ground (arith, h)

-- The other sessions keep their histories.
load-append_other :
    (id other : String) (message : Message) (now : String) (d e : Data)
    → other ≢ id
    → append in_memory_streams id message now d ≡ ok e
    → load in_memory_streams other none e ≡ load in_memory_streams other none d
unfolding append load InMemory.load_stream
load-append_other id other message now d e apart appended =
    let (key, safe, stores) = >>=-eq-ok (safe_id id) _ appended in
    let within : InMemory.append key (normalize now message) d ≡ ok e =
      stored-ok in_memory_streams _ e stores in
    elim (Result-cases (safe_id other)) [
      | inr (refused, r) ↦ rw r
      | inl (k, r) ↦ elim (InMemory.load_stream-append key k (normalize now message) d e within).1 [
        | inl same ↦ absurd (apart (sym (safe_id-ok other k r) ∙ same ∙ safe_id-ok id key safe))
        | inr same ↦ rw (r, same)
      ]
    ]

load-append_one :
    (id : String) (p : Post) (d e : Data)
    → append in_memory_streams p.id p.message p.now d ≡ ok e
    → load in_memory_streams id none e
      ≡ followed (load in_memory_streams id none d) (record_for id p)
load-append_one id p d e appended = elim (Bool-cases (p.id == id)) [
  | inl same ↦
      let h = load-append in_memory_streams p.id p.message p.now d e appended in
      let q = (eq_iff p.id id).0 same in rw same (rw (← q) h)
  | inr differ ↦
      let apart : id ≢ p.id = λ q. ground (arith, eq_iff p.id id, differ, q) in
      rw differ (
        load-append_other p.id id p.message p.now d e apart appended
        ∙ sym (followed-nil (load in_memory_streams id none d)))
]

-- The fields of a message, with the time of the call as `timestamp` where the message has none.
pub record IsStamped (p : Post) (fields : Fields) : Type 0 where
  pub time :
      field_of "timestamp" fields
      ≡ some (when_some (field_of "timestamp" (fields_of p.message)) (str p.now) (λ own. own))
  pub others : (k : String) → k ≢ "timestamp" → field_of k fields ≡ field_of k (fields_of p.message)

field_of-with_default :
    (key k : String) (v : Value) (fs : Fields)
    → (field_of key (with_default key v fs) ≡ some (when_some (field_of key fs) v (λ own. own)))
      × (k ≢ key → field_of k (with_default key v fs) ≡ field_of k fs)
unfolding field_of with_default
field_of-with_default key k v end =
    (ground (arith, eq_iff key key), λ n. ground (arith, eq_iff key k, n))
field_of-with_default key k v (field j w fs) =
    let (time, others) = field_of-with_default key k v fs in
    (ground (arith, time, eq_iff j key), λ n. ground (arith, others n))

normalize-IsStamped : (p : Post) → IsStamped p (normalize p.now p.message)
unfolding normalize
normalize-IsStamped p = record {
  time = (field_of-with_default "timestamp" "" (str p.now) (fields_of p.message)).0;
  others = λ k. (field_of-with_default "timestamp" k (str p.now) (fields_of p.message)).1;
}

history_after :
    (id : String) (ps : List Post) (d e : Data)
    → append_all ps d ≡ ok e
    → load in_memory_streams id none e ≡ followed (load in_memory_streams id none d) (said id ps)
unfolding append_all
history_after id [] d e h =
    let same : d ≡ e = cc h in rw (← same) (sym (followed-nil (load in_memory_streams id none d)))
history_after id (p ∷ ps) d e h =
    let (middle, first, later) = >>=-eq-ok (append in_memory_streams p.id p.message p.now d) _ h in
    history_after id ps middle e later
    ∙ ap (λ x. followed x (said id ps)) (load-append_one id p d middle first)
    ∙ followed-followed (load in_memory_streams id none d) (record_for id p) (said id ps)

-- Where none of the calls of `append` raises, the history of each session on the in-memory backend is
-- that of before and the records of the messages to this session, in their order, and no others; a
-- record has the fields of its message, and the time of the call as `timestamp` if the message has none.
pub load-append_all :
    (id : String) (ps : List Post) (d e : Data)
    → append_all ps d ≡ ok e
    → (load in_memory_streams id none e ≡ followed (load in_memory_streams id none d) (said id ps))
      × ((p : Post) → IsStamped p (normalize p.now p.message))
load-append_all id ps d e h = (history_after id ps d e h, normalize-IsStamped)
