-- ===== src/Security/Commands.antt =====
-- `CommandGuard` of swaybot/guards.py. A command is its characters' code points; `shlex.split`
-- and `str.strip` are parameters.
use swaybot.Prelude.{
  ℕ, String, Bool, Option, none, some, List, [], ◌∷◌, ◌==◌, nat_eq, string_eq, elem, any, ◌||◌,
  Result, ok, err, if◌then◌else◌,
}

pub data Mode : Type 0 where
  read_only workspace_write danger : Mode

-- `CommandGuard.set_mode`: a text that names no mode is a `ValueError`.
unfoldable pub set_mode : String → Option Mode
set_mode mode =
    if mode == "read-only"
    then some read_only
    else if mode == "workspace-write"
    then some workspace_write
    else if mode == "danger"
    then some danger
    else none

abbrev pub read_only_commands : List String
read_only_commands = "ls" ∷ "cat" ∷ "grep" ∷ "find" ∷ "pwd" ∷ "echo" ∷ "wc" ∷ "head" ∷ "tail" ∷ []

abbrev pub extended_commands : List String
extended_commands = "python" ∷ "python3" ∷ "pytest" ∷ read_only_commands

-- `FORBIDDEN`: one of ; | & $ ` and the line ends.
abbrev pub is_forbidden : ℕ → Bool
is_forbidden c =
    c == b';' || (c == b'|' || (c == b'&' || (c == b'$' || (c == 96 || (c == 10 || c == 13)))))

pub data CommandError : Type 0 where
  empty_command : CommandError
  metacharacters : Mode → CommandError
  not_split : CommandError
  not_allowed : String → Mode → CommandError

abbrev pub allowed : Mode → List String
allowed read_only = read_only_commands
allowed _ = extended_commands

-- What is run: a whole text by the shell, or the parts of a split one.
pub data Argv : Type 0 where
  shell : List ℕ → Argv
  parts : String → List String → Argv

abbrev pub check_parts : Mode → Option (List String) → Result CommandError Argv
check_parts m none = err not_split
check_parts m (some []) = err empty_command
check_parts m (some (name ∷ args)) =
    if elem name (allowed m) then ok (parts name args) else err (not_allowed name m)

module _ (split : List ℕ → Option (List String)) (is_blank : List ℕ → Bool) where
  abbrev pub guarded : Mode → List ℕ → Result CommandError Argv
  guarded m command =
      if any is_forbidden command then err (metacharacters m) else check_parts m (split command)

  -- `CommandGuard.validate`
  unfoldable pub validate : Mode → List ℕ → Result CommandError Argv
  validate danger command = if is_blank command then err empty_command else ok (shell command)
  validate m command = guarded m command
