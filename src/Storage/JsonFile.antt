-- ===== src/Storage/JsonFile.antt =====
-- `JSONBackend` of swaybot/storage.py: one JSON text per key. `json.loads` and `json.dumps` are
-- parameters.
use swaybot.Prelude.{
  ◌⊎◌, unless, ℕ, String, ◌≡◌, ◌≢◌, false, Option, none, some, List, [], ◌∷◌, ◌++◌, Result, ok, err,
  ◌>>=◌, Result-cases, nat_eq, string_eq, inl, inr,
}
use swaybot.Prelude.Dict.{lookup, contains}
use swaybot.Json.{Value, Fields, null, obj}
use swaybot.Storage.Records.{
  StorageError, undecodable, normalize_stream_data, limited, appended, appended-records,
}
use swaybot.Storage.Files.{
  Directory, path, atomic_write, create, create-new, path-ok, lookup-atomic_write,
}

module _ (loads : String → Option Value) (dumps : Value → String) where
  abbrev decoded : Option Value → Result StorageError Value
  decoded none = err undecodable
  decoded (some v) = ok v

  abbrev read : Option String → Result StorageError Value
  read none = ok null
  read (some text) = decoded (loads text)

  unfoldable pub load : String → Directory → Result StorageError Value
  load k d = path k >>= λ k. read (lookup k d.files)

  unfoldable pub save : String → Value → Directory → Result StorageError Directory
  save k v d = atomic_write k (dumps v) d

  unfoldable pub append : String → Fields → Directory → Result StorageError Directory
  append k r d = load k d >>= λ v. appended r v >>= λ u. save k u d

  unfoldable pub load_stream : String → Option ℕ → Directory → Result StorageError (List Value)
  load_stream k limit d = load k d >>= λ v. ok (limited limit (normalize_stream_data v))

  load-saved :
      (k j : String) (v : Value) (d e : Directory)
      → loads (dumps v) ≡ some v
      → save k v d ≡ ok e
      → (load k e ≡ ok v) × (j ≢ k → load j e ≡ load j d)
  unfolding load save
  load-saved k j v d e l h =
      let (safe, here, there) = lookup-atomic_write k j (dumps v) d e h in
      (
        rw (safe, here, l),
        λ n. elim (Result-cases (path j)) [
          | inl (i, p) ↦ rw ((path-ok j i p).0, there n)
          | inr (x, p) ↦ rw p
        ],
      )

  -- What is saved at a key is what it loads, where `loads` reads what `dumps` writes; the other keys
  -- load what they did.
  pub load-save_file :
      (k j : String) (v : Value) (d e : Directory)
      → loads (dumps v) ≡ some v
      → save k v d ≡ ok e
      → (load k e ≡ ok v) × ((j ≡ k) ⊎ (load j e ≡ load j d))
  unfolding load save
  load-save_file k j v d e l h =
      let (same, other) = load-saved k j v d e l h in (same, unless k j other)

  -- Where `append` returns, the records at the key are those of before with the new one at their end, if
  -- `loads` reads the new value where `dumps` wrote it; the other keys load what they did.
  pub load_stream-append_file :
      (k j : String) (r : Fields) (d e : Directory) (u v : Value)
      → load k d ≡ ok u
      → appended r u ≡ ok v
      → loads (dumps v) ≡ some v
      → append k r d ≡ ok e
      → (load_stream k none e ≡ ok (normalize_stream_data u ++ obj r ∷ []))
        × ((j ≡ k) ⊎ (load j e ≡ load j d))
  unfolding append load_stream limited
  load_stream-append_file k j r d e u v g a l h =
      let h1 : save k v d ≡ ok e = rw (g, a) at h in
      let (same, other) = load-saved k j v d e l h1 in
      let records = appended-records r u v a in (rw (same, records), unless k j other)

  -- `create` of a new key leaves a file that `load` cannot read, where `loads` reads no value from the
  -- empty text.
  pub load-create :
      (k : String) (d e : Directory)
      → loads "" ≡ none
      → contains k d.files ≡ false
      → create k d ≡ ok e
      → load k e ≡ err undecodable
  unfolding load create
  load-create k d e l n h = let (safe, empty) = create-new k d e n h in rw (safe, empty, l)
