-- ===== src/Storage/Files.antt =====
-- The file backends of swaybot/storage.py over a directory: the files with the backend's extension by
-- their stems, and the temporary files beside them. The lock and the resolution of links are not
-- modelled.
use Prim.Native.Char.{code}
use swaybot.Prelude.{
  refl, ap, sym, ◌∙◌, ℕ, String, ◌≡◌, ◌≢◌, subst, Bool, true, false, ◌&&◌, ◌||◌, some, List, [],
  ◌∷◌, arith, Result, ok, err, ◌>>=◌, >>=-eq-ok, ok-injective, ◌==◌, nat_eq, string_eq, eq_iff,
  if◌then◌else◌, filter, leb,
}
use text.Mathlib.TextLemmas.{nil-append, cons-append}
use swaybot.Prelude.Dict.{lookup, insert, erase, contains, get_or, keys, lookup-insert}
use swaybot.Prelude.Text.{◌⧺◌, starts_with, text_leb}
use swaybot.Storage.Records.{StorageError, empty_key, invalid_key}

pub record Directory : Type 0 where
  pub files : List (String × String)
  pub temps : List (String × String)

-- `[a-zA-Z0-9_-]`
abbrev pub is_safe : ℕ → Bool
is_safe c =
    (leb 97 c && leb c 122)
    || (leb 65 c && leb c 90)
    || (leb 48 c && leb c 57)
    || c == 95
    || c == 45

abbrev pub all_safe : String → Bool
all_safe String.[] = true
all_safe (String.◌∷◌ c s) = is_safe (code c) && all_safe s

and_assoc : (a b c : Bool) → ((a && b) && c) ≡ (a && (b && c))
and_assoc true b c = refl
and_assoc false b c = refl

pub all_safe-append : (s t : String) → all_safe (s ⧺ t) ≡ (all_safe s && all_safe t)
all_safe-append String.[] t = ap all_safe (nil-append t)
all_safe-append (String.◌∷◌ c s) t =
    ap all_safe (cons-append c s t)
    ∙ ap (λ b. is_safe (code c) && b) (all_safe-append s t)
    ∙ sym (and_assoc (is_safe (code c)) (all_safe s) (all_safe t))

-- `_safe_key` and `_path`
unfoldable pub path : String → Result StorageError String
path k = if k == "" then err empty_key else if all_safe k then ok k else err (invalid_key k)

-- The two steps of `_atomic_write`.
unfoldable pub write_temp : String → String → Directory → Directory
write_temp k text d = record d { temps = insert k text d.temps }

unfoldable pub replace_file : String → Directory → Directory
replace_file k d = record {
  files = insert k (get_or k d.temps "") d.files;
  temps = erase k d.temps;
}

unfoldable pub atomic_write : String → String → Directory → Result StorageError Directory
atomic_write k text d = path k >>= λ k. ok (replace_file k (write_temp k text d))

unfoldable pub create : String → Directory → Result StorageError Directory
create k d =
    path k >>= λ k. ok (if contains k d.files then d else record d { files = insert k "" d.files })

unfoldable pub exists : String → Directory → Result StorageError Bool
exists k d = path k >>= λ k. ok (contains k d.files)

unfoldable pub delete : String → Directory → Result StorageError Directory
delete k d = path k >>= λ k. ok (record d { files = erase k d.files })

-- `sorted` of the paths with the backend's extension, by their stems.
abbrev insert_stem : String → String → List String → List String
insert_stem extension k [] = k ∷ []
insert_stem extension k (j ∷ js) =
    let rest = insert_stem extension k js in
    if text_leb (k ⧺ extension) (j ⧺ extension) then k ∷ j ∷ js else j ∷ rest

abbrev sort_stems : String → List String → List String
sort_stems extension [] = []
sort_stems extension (k ∷ ks) = insert_stem extension k (sort_stems extension ks)

unfoldable pub list_keys : String → String → Directory → List String
list_keys extension prefix d =
    filter (λ k. starts_with k prefix) (sort_stems extension (keys d.files))

-- A key that names a file is safe.
pub path-ok : (k j : String) → path k ≡ ok j → (path k ≡ ok k) × (j ≡ k)
unfolding path
path-ok k j h = ground (arith, h)

lookup-replace_file :
    (k j : String) (text : String) (d : Directory)
    → lookup j (replace_file k (write_temp k text d)).files
      ≡ (if k == j then some text else lookup j d.files)
unfolding replace_file write_temp
lookup-replace_file k j text d = ground (
  arith,
  eq_iff k k,
  eq_iff k j,
  lookup-insert k k text d.temps,
  lookup-insert k j (get_or k (insert k text d.temps) "") d.files,
)

-- The texts of the files after `_atomic_write`.
pub lookup-atomic_write :
    (k j : String) (text : String) (d e : Directory)
    → atomic_write k text d ≡ ok e
    → (path k ≡ ok k)
      × (lookup k e.files ≡ some text)
      × (j ≢ k → lookup j e.files ≡ lookup j d.files)
unfolding atomic_write
lookup-atomic_write k j text d e h =
    let (i, p, q) = >>=-eq-ok (path k) (λ k. ok (replace_file k (write_temp k text d))) h in
    let (safe, same) = path-ok k i p in
    let q' : replace_file k (write_temp k text d) ≡ e =
      subst (λ i. replace_file i (write_temp i text d) ≡ e) same (ok-injective q) in
    (
      safe,
      subst (λ x. lookup k x.files ≡ some text) q'
          (ground (arith, eq_iff k k, lookup-replace_file k k text d)),
      λ n.
          subst (λ x. lookup j x.files ≡ lookup j d.files) q'
            (ground (arith, eq_iff k j, lookup-replace_file k j text d)),
    )

-- `create` of a new key leaves an empty file.
pub create-new :
    (k : String) (d e : Directory)
    → contains k d.files ≡ false
    → create k d ≡ ok e
    → (path k ≡ ok k) × (lookup k e.files ≡ some "")
unfolding create
create-new k d e n h =
    let (i, p, q) =
      >>=-eq-ok (path k)
        (λ k. ok (if contains k d.files then d else record d { files = insert k "" d.files })) h in
    let (safe, same) = path-ok k i p in
    let h' : ◌≡◌ {A = Result StorageError Directory} (ok (record d { files = insert k "" d.files }))
        (ok e) =
      rw (safe, n) at h in
    (
      safe,
      subst (λ x. lookup k x.files ≡ some "") (ok-injective h')
          (ground (arith, eq_iff k k, lookup-insert k k "" d.files)),
    )
