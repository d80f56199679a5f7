-- ===== src/Security/Shell.antt =====
-- `Shell` of swaybot/tools/shell.py and `PathGuard` of swaybot/guards.py. A resolved path is its
-- list of components. `Path.resolve`, `shlex.split`, `str.strip` and `subprocess.run` are parameters.
use text.Mathlib.Text.{starts_with, find?}
use swaybot.Prelude.{
  ℕ, String, ◌≡◌, ◌≢◌, Bool, true, false, ◌&&◌, Option, none, some, List, [], ◌∷◌, arith, ◌==◌,
  nat_eq, string_eq, elem, any, All, min, max, Result, ok, err, ◌>>=◌, if◌then◌else◌, Bool-cases,
  inl, inr, >>=-eq-ok, eq_iff, sym, ◌∙◌, subst, ◌≤◌,
}
use swaybot.Security.Commands.{
  Mode, danger, Argv, parts, shell, CommandError, validate, is_forbidden, allowed,
}
use swaybot.Security.Tiers.{validate_sound}

pub data ShellError : Type 0 where
  rejected : CommandError → ShellError
  escapes : ShellError
  absolute_path : ShellError
  path_traversal : ShellError
  find_action : String → ShellError

-- `target.is_relative_to(root)`
unfoldable pub is_prefix : List String → List String → Bool
is_prefix [] path = true
is_prefix (r ∷ root) [] = false
is_prefix (r ∷ root) (p ∷ path) = r == p && is_prefix root path

-- `PathGuard.resolve`; `join root path` is `(root / path).resolve()`.
unfoldable pub resolve :
    (List String → String → List String) → List String → String → Result ShellError (List String)
unfolding is_prefix
resolve join root path =
    let target = join root path in if is_prefix root target then ok target else err escapes

-- `".." in arg`
abbrev pub has_dots : String → Bool
has_dots arg = elim (find? arg "..") [ none ↦ false | some _ ↦ true ]

abbrev pub is_absolute : String → Bool
is_absolute arg = starts_with arg "/"

abbrev pub forbidden_actions : List String
forbidden_actions = "-exec" ∷ "-execdir" ∷ "-ok" ∷ "-okdir" ∷ "-delete" ∷ []

unfoldable pub check_paths : List String → Result ShellError (Unit {0})
check_paths [] = ok tt
check_paths (arg ∷ args) =
    if is_absolute arg
    then err absolute_path
    else if has_dots arg
    then err path_traversal
    else check_paths args

unfoldable pub check_actions : List String → Result ShellError (Unit {0})
check_actions [] = ok tt
check_actions (arg ∷ args) =
    if elem arg forbidden_actions then err (find_action arg) else check_actions args

-- `_validate_arguments`
unfoldable pub validate_arguments : Argv → Result ShellError (Unit {0})
unfolding check_paths check_actions
validate_arguments (shell text) = ok tt
validate_arguments (parts name args) = do
  done ← check_paths args
  if name == "find" then check_actions args else ok done

-- What `subprocess.run` is called with: the command, the working directory, the seconds.
pub record Call : Type 0 where
  pub argv : Argv
  pub cwd : List String
  pub timeout : ℕ

abbrev lifted : Result CommandError Argv → Result ShellError Argv
lifted (ok argv) = ok argv
lifted (err e) = err (rejected e)

module _ (split : List ℕ → Option (List String)) (is_blank : List ℕ → Bool)
    (join : List String → String → List String) where
  -- `Shell.run` up to the call of `subprocess.run`. A negative timeout is raised to 1, as 0 is.
  unfoldable pub prepare : Mode → List String → List ℕ → String → ℕ → Result ShellError Call
  unfolding resolve validate_arguments
  prepare m root command cwd timeout = do
    argv ← lifted (validate split is_blank m command)
    workdir ← resolve join root cwd
    done ← validate_arguments argv
    ok (record { argv = argv; cwd = workdir; timeout = max 1 (min timeout 600) })

-- What an argument may be.
abbrev pub IsConfined : String → Type 0
IsConfined arg = (is_absolute arg ≡ false) × (has_dots arg ≡ false)

check_paths_sound : (args : List String) → check_paths args ≡ ok tt → All IsConfined args
unfolding check_paths
check_paths_sound [] h = tt
check_paths_sound (arg ∷ args) h =
    ((ground arith, ground arith), check_paths_sound args (ground arith))

check_actions_sound :
    (args : List String)
    → check_actions args ≡ ok tt
    → All (λ a. elem a forbidden_actions ≡ false) args
unfolding check_actions
check_actions_sound [] h = tt
check_actions_sound (arg ∷ args) h = elim (Bool-cases (elem arg forbidden_actions)) [
  | inl e ↦ cc (rw e at h)
  | inr e ↦ (e, check_actions_sound args (rw e at h))
]

-- What the parts of a command have to be.
abbrev pub IsSafe : Argv → Type 0
IsSafe (shell text) = Unit
IsSafe (parts name args) =
    All IsConfined args × (name ≡ "find" → All (λ a. elem a forbidden_actions ≡ false) args)

pub validate_arguments-IsSafe :
    (argv : Argv) {u : Unit {0}} → validate_arguments argv ≡ ok u → IsSafe argv
unfolding validate_arguments
validate_arguments-IsSafe (shell text) h = tt
validate_arguments-IsSafe (parts name args) h =
    let (u, p, q) = >>=-eq-ok (check_paths args) _ h in
    (check_paths_sound args p, λ e. check_actions_sound args (rw ((eq_iff name "find").1 e) at q))

lifted-ok : (r : Result CommandError Argv) (argv : Argv) → lifted r ≡ ok argv → r ≡ ok argv
lifted-ok (ok a) argv h = cc
lifted-ok (err e) argv h = cc

module _ (split : List ℕ → Option (List String)) (is_blank : List ℕ → Bool)
    (join : List String → String → List String) where
  resolve-within :
      (root : List String) (path : String) (target : List String)
      → resolve join root path ≡ ok target
      → is_prefix root target ≡ true
  unfolding resolve
  resolve-within root path target h = elim (Bool-cases (is_prefix root (join root path))) [
    | inl e ↦
        let h' : ◌≡◌ {A = Result ShellError (List String)} (ok (join root path)) (ok target) =
          rw e at h in
        let same : join root path ≡ target = cc h' in rw (← same) e
    | inr e ↦ cc (rw e at h)
  ]

  -- In every mode but danger, what reaches `subprocess.run` is a split command of the mode's list
  -- without metacharacters, its arguments are neither absolute nor climb up, `find` gets no action
  -- that runs or deletes, the working directory lies under the root, and the timeout is 1 to 600.
  pub prepare-confined :
      (m : Mode) (root : List String) (command : List ℕ) (cwd : String) (timeout : ℕ) (c : Call)
      → m ≢ danger
      → prepare split is_blank join m root command cwd timeout ≡ ok c
      → (any is_forbidden command ≡ false)
        × ((name : String) × (args : List String) × (c.argv ≡ parts name args)
            × (elem name (allowed m) ≡ true))
        × IsSafe c.argv
        × (is_prefix root c.cwd ≡ true)
        × (1 ≤ c.timeout)
        × (c.timeout ≤ 600)
  unfolding prepare
  prepare-confined m root command cwd timeout c n h =
      let (argv, p, h1) = >>=-eq-ok (lifted (validate split is_blank m command)) _ h in
      let (dir, q, h2) = >>=-eq-ok (resolve join root cwd) _ h1 in
      let (u, r, h3) = >>=-eq-ok (validate_arguments argv) _ h2 in
      let (name, args, is_parts, _, listed, clean) =
        validate_sound split is_blank m command argv n (lifted-ok _ argv p) in
      let same_argv : argv ≡ c.argv = cc h3 in
      let same_dir : dir ≡ c.cwd = cc h3 in
      let same_time : max 1 (min timeout 600) ≡ c.timeout = cc h3 in
      (
        clean,
        (name, args, sym same_argv ∙ is_parts, listed),
        subst IsSafe same_argv (validate_arguments-IsSafe argv r),
        rw (← same_dir) (resolve-within root cwd dir q),
        rw (← same_time) (omega arith),
        rw (← same_time) (omega arith),
      )
