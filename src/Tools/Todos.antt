-- ===== src/Tools/Todos.antt =====
-- The task list of swaybot/tools/todos.py: `TodoStore`, `_validate`, `_summary`, `todo_read` and
-- `todo_write`. The texts of `str` and `strip` are parameters; the fixed wording of an answer is a
-- constructor, and `none` is a `KeyError`.
use swaybot.Prelude.{
  ℕ, suc, String, Bool, false, Option, none, some, List, [], ◌∷◌, ◌==◌, string_eq, elem, length,
  if◌then◌else◌, when_some,
}
use swaybot.Prelude.Dict.{lookup, insert}
use swaybot.Json.{Value, Fields, Items, str, obj, arr, nil, cons, end, field, field_of}

-- `_STATUSES`
abbrev pub statuses : List String
statuses = "pending" ∷ "in_progress" ∷ "completed" ∷ []

pub record Todo : Type 0 where
  pub content : String
  pub status : String

pub data Problem : Type 0 where
  not_a_list : Problem
  not_an_object : Problem
  no_content : Problem
  bad_status : Option Value → Problem

pub data Answer : Type 0 where
  refused : Problem → Answer
  -- the number of tasks, and the count of each status
  updated : ℕ → List (String × ℕ) → Answer

-- `v not in _STATUSES`, of what `get` gives
unfoldable pub is_status : Option Value → Bool
is_status (some (str s)) = elem s statuses
is_status _ = false

-- `item["status"]`, a text in what is accepted
unfoldable pub status_of : Option Value → Option String
status_of (some (str s)) = some s
status_of _ = none

-- The loop of `_summary`.
unfoldable pub count_all : List Todo → List (String × ℕ) → Option (List (String × ℕ))
count_all [] counts = some counts
count_all (t ∷ ts) counts =
    when_some (lookup t.status counts) none (λ n. count_all ts (insert t.status (suc n) counts))

abbrev pub no_counts : List (String × ℕ)
no_counts = ("pending", 0) ∷ ("in_progress", 0) ∷ ("completed", 0) ∷ []

-- `_summary`
unfoldable pub summary : List Todo → Option Answer
summary ts = when_some (count_all ts no_counts) none (λ counts. some (updated (length ts) counts))

module _ (text_of : Value → String) where
  -- `str(item.get("content", ""))`
  unfoldable pub content_text : Fields → String
  content_text fs = when_some (field_of "content" fs) (text_of (str "")) text_of

  -- `{"content": str(item["content"]), "status": item["status"]}`
  unfoldable pub todo_of : Value → Option Todo
  todo_of (obj fs) = when_some (field_of "content" fs) none (λ c.
      when_some (status_of (field_of "status" fs)) none
        (λ s. some (record { content = text_of c; status = s })))
  todo_of _ = none

  unfoldable pub todos_of : Items → Option (List Todo)
  todos_of nil = some []
  todos_of (cons v vs) =
      when_some (todo_of v) none (λ t. when_some (todos_of vs) none (λ ts. some (t ∷ ts)))

  unfoldable pub given : Value → Option (List Todo)
  given (arr vs) = todos_of vs
  given _ = none

module _ (text_of : Value → String) (strip : String → String) where
  -- The body of the loop of `_validate`.
  unfoldable pub item_problem : Value → Option Problem
  item_problem (obj fs) =
      if strip (content_text text_of fs) == ""
      then some no_content
      else if is_status (field_of "status" fs)
      then none
      else some (bad_status (field_of "status" fs))
  item_problem _ = some not_an_object

  unfoldable pub items_problem : Items → Option Problem
  items_problem nil = none
  items_problem (cons v vs) = when_some (item_problem v) (items_problem vs) some

  -- `_validate`
  unfoldable pub validate : Value → Option Problem
  validate (arr vs) = items_problem vs
  validate _ = some not_a_list

  -- `todo_write`: the answer, `none` where it raises, and the list that the store has then.
  unfoldable pub todo_write : Value → List Todo → Option Answer × List Todo
  todo_write v store =
      when_some (validate v) (when_some (given text_of v) (none, store) (λ ts. (summary ts, ts)))
        (λ p. (some (refused p), store))

-- `todo_read`: the value whose text it answers with.
abbrev pub todo_fields : Todo → Value
todo_fields t = obj (field "content" (str t.content) (field "status" (str t.status) end))

unfoldable pub items_of : List Todo → Items
items_of [] = nil
items_of (t ∷ ts) = cons (todo_fields t) (items_of ts)

unfoldable pub todo_read : List Todo → Value
todo_read store = obj (field "todos" (arr (items_of store)) end)
