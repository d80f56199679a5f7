-- ===== src/Security/Tiers.antt =====
-- What the modes of `CommandGuard` (swaybot/guards.py) let through.
use swaybot.Prelude.{
  ℕ, String, ◌≡◌, ◌≢◌, refl, Bool, true, false, Option, none, some, List, [], ◌∷◌, nat_eq,
  string_eq, elem, any, ok, Bool-cases, ◌||◌, inl, inr,
}
use swaybot.Security.Commands.{
  check_parts, guarded, read_only_commands, extended_commands, Mode, read_only, workspace_write,
  danger, is_forbidden, allowed, parts, Argv, validate,
}

checked :
    (m : Mode) (o : Option (List String)) (argv : Argv)
    → check_parts m o ≡ ok argv
    → (name : String) × (args : List String) × (argv ≡ parts name args)
      × (o ≡ some (name ∷ args))
      × (elem name (allowed m) ≡ true)
checked m none argv h = cc
checked m (some []) argv h = cc
checked m (some (name ∷ args)) argv h = elim (Bool-cases (elem name (allowed m))) [
  | inl e ↦ (name, args, cc (rw e at h), refl, e)
  | inr e ↦ cc (rw e at h)
]

elem-extended :
    (name : String) → elem name read_only_commands ≡ true → elem name extended_commands ≡ true
elem-extended name h = simp (h, or_true)
  where
    or_true : (b : Bool) → (b || true) ≡ true
    or_true true = refl
    or_true false = refl

check_parts_mono :
    (o : Option (List String)) (argv : Argv)
    → check_parts read_only o ≡ ok argv
    → check_parts workspace_write o ≡ ok argv
check_parts_mono none argv h = cc
check_parts_mono (some []) argv h = cc
check_parts_mono (some (name ∷ args)) argv h = elim (Bool-cases (elem name read_only_commands)) [
  | inl e ↦ rw (elem-extended name e) (rw e at h)
  | inr e ↦ cc (rw e at h)
]

module _ (split : List ℕ → Option (List String)) (is_blank : List ℕ → Bool) where
  abbrev Accepted : Mode → List ℕ → Argv → Type 0
  Accepted m command argv =
      (name : String) × (args : List String) × (argv ≡ parts name args)
      × (split command ≡ some (name ∷ args))
      × (elem name (allowed m) ≡ true)
      × (any is_forbidden command ≡ false)

  guarded_sound :
      (m : Mode) (command : List ℕ) (argv : Argv)
      → guarded split is_blank m command ≡ ok argv
      → Accepted m command argv
  guarded_sound m command argv h = elim (Bool-cases (any is_forbidden command)) [
    | inl e ↦ cc (rw e at h)
    | inr e ↦
        let (name, args, p, q, r) = checked m (split command) argv (rw e at h) in
        (name, args, p, q, r, e)
  ]

  -- Outside danger mode an accepted command has none of the shell's metacharacters, is what
  -- `shlex.split` made of it, and names a command of the mode's list.
  pub validate_sound :
      (m : Mode) (command : List ℕ) (argv : Argv)
      → m ≢ danger
      → validate split is_blank m command ≡ ok argv
      → (name : String) × (args : List String) × (argv ≡ parts name args)
        × (split command ≡ some (name ∷ args))
        × (elem name (allowed m) ≡ true)
        × (any is_forbidden command ≡ false)
  unfolding validate
  validate_sound read_only command argv n h = guarded_sound read_only command argv h
  validate_sound workspace_write command argv n h = guarded_sound workspace_write command argv h
  validate_sound danger command argv n h = absurd (n refl)

  -- What read-only mode accepts, workspace-write mode accepts with the same parts.
  pub validate_mono :
      (command : List ℕ) (argv : Argv)
      → validate split is_blank read_only command ≡ ok argv
      → validate split is_blank workspace_write command ≡ ok argv
  unfolding validate
  validate_mono command argv h = elim (Bool-cases (any is_forbidden command)) [
    | inl e ↦ cc (rw e at h)
    | inr e ↦ rw e (check_parts_mono (split command) argv (rw e at h))
  ]
