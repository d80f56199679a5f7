-- ===== src/Storage/InMemory.antt =====
-- `InMemoryBackend` of swaybot/storage.py. The stored values are shared with the callers in the source;
-- here each call has its own.

use swaybot.Prelude.{
  ◌⊎◌, unless, ℕ, String, ◌≡◌, ◌≢◌, refl, ap, ◌∙◌, Bool, true, false, not, ◌&&◌, ◌||◌, Option, none,
  List, [], ◌∷◌, ◌++◌, arith, Result, ok, err, ◌>>=◌, >>=-eq-ok, subst, ◌==◌, string_eq, eq_iff,
  if◌then◌else◌, filter, Bool-cases, inl, inr, elem,
}
use swaybot.Prelude.Dict.{lookup, insert, erase, contains, get_or, keys, lookup-insert, lookup-nil}
use swaybot.Prelude.Text.{starts_with, text_leb}
use swaybot.Json.{Value, Fields, null, obj}
use swaybot.Storage.Records.{
  StorageError, empty_key, normalize_stream_data, limited, select, Backend, appended,
  appended-records,
}

abbrev pub Data : Type 0
Data = List (String × Value)

unfoldable pub safe_key : String → Result StorageError String
safe_key k = if k == "" then err empty_key else ok k

unfoldable pub create : String → Data → Result StorageError Data
create k d = safe_key k >>= λ k. ok (if contains k d then d else insert k null d)

abbrev is_null : Value → Bool
is_null null = true
is_null _ = false

unfoldable pub exists : String → Data → Result StorageError Bool
exists k d = safe_key k >>= λ k. ok (contains k d && not (is_null (get_or k d null)))

unfoldable pub delete : String → Data → Result StorageError Data
delete k d = safe_key k >>= λ k. ok (erase k d)

unfoldable pub load : String → Data → Result StorageError Value
load k d = safe_key k >>= λ k. ok (get_or k d null)

unfoldable pub save : String → Value → Data → Result StorageError Data
save k v d = safe_key k >>= λ k. ok (insert k v d)

unfoldable pub append : String → Fields → Data → Result StorageError Data
append k r d = safe_key k >>= λ k. appended r (get_or k d null) >>= λ v. ok (insert k v d)

unfoldable pub load_stream : String → Option ℕ → Data → Result StorageError (List Value)
load_stream k limit d = load k d >>= λ v. ok (limited limit (normalize_stream_data v))

module _ (same : Value → Value → Bool) where
  unfoldable pub query : String → Fields → Data → Result StorageError (List Value)
  query k filters d = load_stream k none d >>= λ rs. ok (select same filters rs)

abbrev insert_text : String → List String → List String
insert_text k [] = k ∷ []
insert_text k (j ∷ js) =
    let rest = insert_text k js in if text_leb k j then k ∷ j ∷ js else j ∷ rest

-- `sorted` of texts
abbrev pub sort_texts : List String → List String
sort_texts [] = []
sort_texts (k ∷ ks) = insert_text k (sort_texts ks)

unfoldable pub list_keys : String → Data → List String
list_keys prefix d = sort_texts (filter (λ k. starts_with k prefix) (keys d))

elem-insert_text :
    (j k : String) (ks : List String) → elem j (insert_text k ks) ≡ (j == k || elem j ks)
elem-insert_text j k [] = refl
elem-insert_text j k (i ∷ is) = ground (arith, elem-insert_text j k is)

elem-sort_texts : (j : String) (ks : List String) → elem j (sort_texts ks) ≡ elem j ks
elem-sort_texts j [] = refl
elem-sort_texts j (k ∷ ks) =
    elem-insert_text j k (sort_texts ks) ∙ ap (λ b. j == k || b) (elem-sort_texts j ks)

elem-keys : (j : String) (d : Data) → elem j (keys d) ≡ contains j d
unfolding lookup
elem-keys j [] = ground (arith, lookup-nil {V = Value} j)
elem-keys j ((k, v) ∷ d) = ground (arith, eq_iff j k, eq_iff k j, elem-keys j d)

elem-filter :
    (j : String) (p : String → Bool) (ks : List String) → elem j (filter p ks) ≡ (elem j ks && p j)
elem-filter j p [] = refl
elem-filter j p (k ∷ ks) = ground (arith, eq_iff j k, elem-filter j p ks)

-- The keys that `list_keys` lists are those that are stored and start with the prefix.
pub elem-list_keys :
    (k prefix : String) (d : Data)
    → elem k (list_keys prefix d) ≡ (contains k d && starts_with k prefix)
unfolding list_keys
elem-list_keys k prefix d =
    elem-sort_texts k _
    ∙ elem-filter k (λ j. starts_with j prefix) (keys d)
    ∙ ap (λ b. b && starts_with k prefix) (elem-keys k d)

-- A key that was not stored does not exist after `create` either: what is stored is `None`.
pub exists-create :
    (k : String) (d : Data) → k ≢ "" → contains k d ≡ false → (create k d >>= exists k) ≡ ok false
unfolding create exists safe_key
exists-create k d n h = ground (arith, eq_iff k "", lookup-insert k k null d)

-- What is stored at a key is what it loads.
load-insert :
    (k j : String) (v : Value) (d : Data)
    → (k == "") ≡ false
    → (load k (insert k v d) ≡ ok v) × (j ≢ k → load j (insert k v d) ≡ load j d)
unfolding load safe_key
load-insert k j v d c = (
  ground (arith, c, eq_iff k k, lookup-insert k k v d),
  λ n. ground (arith, eq_iff k j, lookup-insert k j v d),
)

-- `save` refuses only the empty key.
pub save-named :
    (k : String) (v : Value) (d : Data) → (k == "") ≡ false → save k v d ≡ ok (insert k v d)
unfolding save safe_key
save-named k v d c = rw c

pub load-save_lem : (k : String) (v : Value) (d e : Data) → save k v d ≡ ok e → load k e ≡ ok v
unfolding save safe_key
load-save_lem k v d e h = elim (Bool-cases (k == "")) [
  | inl c ↦ ground (arith, c, h)
  | inr c ↦
      let h' : ◌≡◌ {A = Result StorageError Data} (ok (insert k v d)) (ok e) = rw c at h in
      let q : insert k v d ≡ e = ground (arith, h') in
      subst (λ x. load k x ≡ ok v) q (load-insert k k v d c).0
]

load-eq : (k : String) (d : Data) → (k == "") ≡ false → load k d ≡ ok (get_or k d null)
unfolding load safe_key
load-eq k d c = rw c

-- What `append` stores where it returns.
append-ok :
    (k : String) (r : Fields) (d e : Data)
    → append k r d ≡ ok e
    → (v : Value) × ((k == "") ≡ false) × (appended r (get_or k d null) ≡ ok v) × (insert k v d ≡ e)
unfolding append safe_key
append-ok k r d e h = elim (Bool-cases (k == "")) [
  | inl c ↦ ground (arith, c, h)
  | inr c ↦
      let h' : (appended r (get_or k d null) >>= λ v. ok (insert k v d)) ≡ ok e = rw c at h in
      let (v, a, q) = >>=-eq-ok (appended r (get_or k d null)) (λ v. ok (insert k v d)) h' in
      (v, c, a, ground (arith, q))
]

-- Where `append` returns, the records at the key are those of before with the new one at their end, and
-- the other keys load what they did.
pub load_stream-append :
    (k j : String) (r : Fields) (d e : Data)
    → append k r d ≡ ok e
    → (load_stream k none e ≡ (load_stream k none d >>= λ rs. ok (rs ++ obj r ∷ [])))
      × ((j ≡ k) ⊎ (load j e ≡ load j d))
unfolding load_stream limited
load_stream-append k j r d e h =
    let (v, c, a, q) = append-ok k r d e h in
    let (same, other) = load-insert k j v d c in
    let records = appended-records r (get_or k d null) v a in
    subst
      (λ x.
        (load_stream k none x ≡ (load_stream k none d >>= λ rs. ok (rs ++ obj r ∷ [])))
        × ((j ≡ k) ⊎ (load j x ≡ load j d)))
      q (rw (same, load-eq k d c, records), unless k j other)

abbrev pub in_memory : Backend Data
in_memory = record { load = load; save = save; list_keys = list_keys; load-save = load-save_lem }
