-- ===== src/Tools/Planning.antt =====
-- What the task list of swaybot/tools/todos.py keeps.
use swaybot.Prelude.{
  ℕ, suc, String, true, false, Option, none, some, List, [], ◌∷◌, ◌==◌, string_eq, ◌≡◌, inl, inr,
  All, elem, length, if◌then◌else◌, when_some, Bool-cases, Option-cases, eq_iff, arith, refl,
}
use swaybot.Prelude.Dict.{lookup, insert, lookup-insert}
use swaybot.Json.{Value, Items, null, bool, int, float, str, obj, arr, nil, cons, field_of}
use swaybot.Tools.Todos.{
  statuses, Todo, Answer, Problem, updated, no_content, bad_status, refused, not_a_list, is_status,
  content_text, item_problem, items_problem, validate, status_of, todo_of, todos_of, given,
  count_all, summary, todo_write, no_counts, items_of,
}

-- A dictionary with a count of each status.
CountsAll : List (String × ℕ) → Type 0
CountsAll counts = (s : String) → elem s statuses ≡ true → (n : ℕ) × (lookup s counts ≡ some n)

CountsAll-insert :
    (k : String) (m : ℕ) (counts : List (String × ℕ))
    → CountsAll counts
    → CountsAll (insert k m counts)
unfolding CountsAll
CountsAll-insert k m counts counted s known =
    let old : (n : ℕ) × (lookup s counts ≡ some n) = counted s known in
    elim (Bool-cases (k == s)) [
      | inl same ↦ (m, rw (lookup-insert k s m counts, same))
      | inr other ↦ (old.0, rw (lookup-insert k s m counts, other, old.1))
    ]

is_status-text :
    (given : Option Value)
    → is_status given ≡ true
    → (s : String) × (status_of given ≡ some s) × (elem s statuses ≡ true)
unfolding is_status status_of
is_status-text (some (str s)) h = (s, refl, h)
is_status-text (some null) h = cc
is_status-text (some (bool b)) h = cc
is_status-text (some (int b n)) h = cc
is_status-text (some (float x)) h = cc
is_status-text (some (obj fs)) h = cc
is_status-text (some (arr vs)) h = cc
is_status-text none h = cc

module _ (text_of : Value → String) (strip : String → String) where
  -- A task that `_validate` accepts.
  abbrev pub IsTask : Todo → Type 0
  IsTask t = ((strip t.content == "") ≡ false) × (elem t.status statuses ≡ true)

  module _ (text_of-str : (s : String) → text_of (str s) ≡ s) where
    items_problem-items_of :
        (ts : List Todo) → All IsTask ts → items_problem text_of strip (items_of ts) ≡ none
    unfolding items_problem item_problem content_text items_of is_status field_of
    items_problem-items_of [] tasks = refl
    items_problem-items_of (t ∷ ts) ((filled, known), tasks) =
        rw (text_of-str t.content, filled, known, items_problem-items_of ts tasks)

    todos_of-items_of : (ts : List Todo) → todos_of text_of (items_of ts) ≡ some ts
    unfolding todos_of todo_of status_of items_of field_of
    todos_of-items_of [] = refl
    todos_of-items_of (t ∷ ts) = rw (text_of-str t.content, todos_of-items_of ts)

  count_all-some :
      (ts : List Todo) (counts : List (String × ℕ))
      → All IsTask ts
      → CountsAll counts
      → (last : List (String × ℕ)) × (count_all ts counts ≡ some last)
  unfolding count_all CountsAll
  count_all-some [] counts tasks counted = (counts, refl)
  count_all-some (t ∷ ts) counts tasks counted =
      let here : (n : ℕ) × (lookup t.status counts ≡ some n) = counted t.status tasks.0.1 in
      let next =
        count_all-some ts (insert t.status (suc here.0) counts) tasks.1
          (CountsAll-insert t.status (suc here.0) counts counted) in
      (next.0, rw (here.1, next.1))

  module _ (blank : strip (text_of (str "")) ≡ "") where
    IsTask-of_values :
        (c s : Option Value)
        → (if strip (when_some c (text_of (str "")) text_of) == ""
            then some no_content
            else if is_status s
            then none
            else some (bad_status s))
          ≡ none
        → (t : Todo) × (when_some c none (λ v.
              when_some (status_of s) none (λ x. some (record { content = text_of v; status = x })))
            ≡ some t)
          × IsTask t
    IsTask-of_values none s accepted =
        let empty : (strip (text_of (str "")) == "") ≡ true = rw blank in
        let h : ◌≡◌ {A = Option Problem} (some no_content) none = ground (arith, accepted, empty) in
        cc h
    IsTask-of_values (some v) s accepted =
        let filled : (strip (text_of v) == "") ≡ false = ground (arith, accepted) in
        let known : is_status s ≡ true = ground (arith, accepted) in
        let text = is_status-text s known in
        (record { content = text_of v; status = text.0 }, rw text.1, (filled, text.2))

    IsTask-todo_of :
        (v : Value)
        → item_problem text_of strip v ≡ none
        → (t : Todo) × (todo_of text_of v ≡ some t) × IsTask t
    unfolding item_problem todo_of content_text
    IsTask-todo_of (obj fs) accepted =
        IsTask-of_values (field_of "content" fs) (field_of "status" fs) accepted
    IsTask-todo_of (str s) accepted = cc
    IsTask-todo_of null accepted = cc
    IsTask-todo_of (bool b) accepted = cc
    IsTask-todo_of (int b n) accepted = cc
    IsTask-todo_of (float x) accepted = cc
    IsTask-todo_of (arr vs) accepted = cc

    todos_of-IsTask :
        (vs : Items)
        → items_problem text_of strip vs ≡ none
        → (ts : List Todo) × (todos_of text_of vs ≡ some ts) × All IsTask ts
    unfolding items_problem todos_of
    todos_of-IsTask nil accepted = ([], refl, tt)
    todos_of-IsTask (cons v vs) accepted = elim (Option-cases (item_problem text_of strip v)) [
      | inr problem ↦
          let h : ◌≡◌ {A = Option Problem} (some problem.0) none = rw (← accepted, problem.1) in
          cc h
      | inl fine ↦
          let others : items_problem text_of strip vs ≡ none = rw (← accepted, fine) in
          let first = IsTask-todo_of v fine in
          let rest = todos_of-IsTask vs others in
          (first.0 ∷ rest.0, rw (first.1, rest.1), (first.2, rest.2))
    ]

no_counts-CountsAll : CountsAll no_counts
unfolding CountsAll lookup
no_counts-CountsAll s known = (
  0,
  ground (
    arith,
    known,
    eq_iff s "pending",
    eq_iff "pending" s,
    eq_iff s "in_progress",
    eq_iff "in_progress" s,
    eq_iff s "completed",
    eq_iff "completed" s,
  ),
)

module _ (text_of : Value → String) (strip : String → String)
    (text_of-str : (s : String) → text_of (str s) ≡ s) (strip-empty : strip "" ≡ "") where
  summary-some :
      (ts : List Todo)
      → All (IsTask text_of strip) ts
      → (answer : Answer) × (summary ts ≡ some answer)
  unfolding summary
  summary-some ts tasks =
      let counted = count_all-some text_of strip ts no_counts tasks no_counts-CountsAll in
      (updated (length ts) counted.0, rw counted.1)

  -- What `todo_read` shows of accepted tasks, given to `todo_write`, becomes the list.
  pub todo_write-items_of :
      (ts store : List Todo)
      → All (IsTask text_of strip) ts
      → (todo_write text_of strip (arr (items_of ts)) store).1 ≡ ts
  unfolding todo_write validate given
  todo_write-items_of ts store tasks = rw (
    items_problem-items_of text_of strip text_of-str ts tasks,
    todos_of-items_of text_of strip text_of-str ts,
  )

  -- Where `str` of a text is the text, `strip` leaves the empty text, and each task of the store has a
  -- content that `strip` does not empty and one of the three statuses, `todo_write` answers, whatever
  -- it is given, without a `KeyError`, and each task of the store that it leaves is such a task.
  pub todo_write-IsTask :
      (v : Value) (store : List Todo)
      → All (IsTask text_of strip) store
      → ((answer : Answer) × ((todo_write text_of strip v store).0 ≡ some answer))
        × All (IsTask text_of strip) (todo_write text_of strip v store).1
  unfolding todo_write validate given
  todo_write-IsTask (arr vs) store tasks = elim (Option-cases (items_problem text_of strip vs)) [
    | inr problem ↦ rw problem.1 ((refused problem.0, refl), tasks)
    | inl fine ↦
        let blank : strip (text_of (str "")) ≡ "" = rw (text_of-str "", strip-empty) in
        let written = todos_of-IsTask text_of strip blank vs fine in
        rw (fine, written.1) (summary-some written.0 written.2, written.2)
  ]
  todo_write-IsTask (obj fs) store tasks = ((refused not_a_list, refl), tasks)
  todo_write-IsTask (str s) store tasks = ((refused not_a_list, refl), tasks)
  todo_write-IsTask null store tasks = ((refused not_a_list, refl), tasks)
  todo_write-IsTask (bool b) store tasks = ((refused not_a_list, refl), tasks)
  todo_write-IsTask (int b n) store tasks = ((refused not_a_list, refl), tasks)
  todo_write-IsTask (float x) store tasks = ((refused not_a_list, refl), tasks)
