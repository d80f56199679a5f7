-- ===== src/Security/JsonStore.antt =====
-- `JSONViolationStore` of swaybot/violations.py, over any backend. Counts are integers, a sign (true
-- from 0 on) and a magnitude, since a file may hold any.
use swaybot.Prelude.{
  ℕ, ◌≡◌, refl, ap, sym, ◌∙◌, arith, String, Bool, true, false, List, [], ◌∷◌, Result, ok, ◌>>=◌,
  >>=-eq-ok, ◌==◌, string_eq, if◌then◌else◌,
}
use swaybot.Prelude.Dict.{insert, erase, get_or, lookup-insert, lookup-erase}
use swaybot.Json.{Value, Fields, bool, int, obj, end, field}
use swaybot.Storage.Records.{StorageError, Backend}

abbrev pub Count : Type 0
Count = Bool × ℕ

-- `data[k] = v` for a value that is an `int`, which a Boolean is too.
abbrev pub with_count : String → Value → List (String × Count) → List (String × Count)
with_count k (int sign n) counts = (k, (sign, n)) ∷ counts
with_count k (bool true) counts = (k, (true, 1)) ∷ counts
with_count k (bool false) counts = (k, (true, 0)) ∷ counts
with_count k _ counts = counts

unfoldable pub counts_in : Fields → List (String × Count)
counts_in end = []
counts_in (field k v fs) = with_count k v (counts_in fs)

abbrev pub counts_of : Value → List (String × Count)
counts_of (obj fs) = counts_in fs
counts_of _ = []

unfoldable pub fields_with : List (String × Count) → Fields
fields_with [] = end
fields_with ((k, (sign, n)) ∷ counts) = field k (int sign n) (fields_with counts)

counts_in-fields_with : (counts : List (String × Count)) → counts_in (fields_with counts) ≡ counts
unfolding counts_in fields_with
counts_in-fields_with [] = refl
counts_in-fields_with ((k, (sign, n)) ∷ counts) =
    ap (λ m. (k, (sign, n)) ∷ m) (counts_in-fields_with counts)

module _ {S : Type 0} (backend : Backend S) (key : String) where
  -- `_load`
  unfoldable pub load : S → Result StorageError (List (String × Count))
  load s = backend.load key s >>= λ found. ok (counts_of found)

  -- `_save`
  unfoldable pub save : List (String × Count) → S → Result StorageError S
  save counts s = backend.save key (obj (fields_with counts)) s

  -- `get`
  unfoldable pub get : String → S → Result StorageError Count
  get session s = load s >>= λ counts. ok (get_or session counts (true, 0))

  -- `set`
  unfoldable pub set : String → ℕ → S → Result StorageError S
  set session count s = load s >>= λ counts. save (insert session (true, count) counts) s

  -- `reset`
  unfoldable pub reset : String → S → Result StorageError S
  reset session s = load s >>= λ counts. save (erase session counts) s

  -- What was saved is loaded again.
  get-save :
      (counts : List (String × Count)) (session : String) (s t : S)
      → save counts s ≡ ok t
      → get session t ≡ ok (get_or session counts (true, 0))
  unfolding get load save
  get-save counts session s t saved =
      ap
        (λ r.
          (r >>= λ found. ok (counts_of found)) >>= λ counts. ok (get_or session counts (true, 0)))
        (backend.load-save key (obj (fields_with counts)) s t saved)
      ∙ ap (λ m. ok (get_or session m (true, 0))) (counts_in-fields_with counts)

  get_or-insert :
      (asked session : String) (c : Count) (m : List (String × Count))
      → get_or asked (insert session c m) (true, 0)
        ≡ (if session == asked then c else get_or asked m (true, 0))
  get_or-insert asked session c m = ground (arith, lookup-insert session asked c m)

  get_or-erase :
      (asked session : String) (m : List (String × Count))
      → get_or asked (erase session m) (true, 0)
        ≡ (if session == asked then (true, 0) else get_or asked m (true, 0))
  get_or-erase asked session m = ground (arith, lookup-erase session asked m)

  get-load :
      (asked : String) (s : S) (m : List (String × Count))
      → load s ≡ ok m
      → get asked s ≡ ok (get_or asked m (true, 0))
  unfolding get
  get-load asked s m loaded = ap (λ r. r >>= λ counts. ok (get_or asked counts (true, 0))) loaded

  -- Where a count is set, the file holds it, and for every other session what it held.
  pub get-set :
      (session asked : String) (count : ℕ) (s t : S)
      → set session count s ≡ ok t
      → get asked t ≡ (get asked s >>= λ old. ok (if session == asked then (true, count) else old))
  unfolding set
  get-set session asked count s t done =
      let (m, loaded, saved) =
        >>=-eq-ok (load s) (λ counts. save (insert session (true, count) counts) s) done in
      get-save (insert session (true, count) m) asked s t saved
      ∙ ap ok (get_or-insert asked session (true, count) m)
      ∙ sym (
          ap (λ r. r >>= λ old. ok (if session == asked then (true, count) else old))
            (get-load asked s m loaded))

  -- Where a session is reset, the file holds no count for it, and for every other one what it held.
  pub get-reset :
      (session asked : String) (s t : S)
      → reset session s ≡ ok t
      → get asked t ≡ (get asked s >>= λ old. ok (if session == asked then (true, 0) else old))
  unfolding reset
  get-reset session asked s t done =
      let (m, loaded, saved) = >>=-eq-ok (load s) (λ counts. save (erase session counts) s) done in
      get-save (erase session m) asked s t saved
      ∙ ap ok (get_or-erase asked session m)
      ∙ sym (
          ap (λ r. r >>= λ old. ok (if session == asked then (true, 0) else old))
            (get-load asked s m loaded))
