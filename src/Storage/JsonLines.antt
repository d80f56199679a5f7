-- ===== src/Storage/JsonLines.antt =====
-- `JSONLBackend` of swaybot/storage.py: a JSON text per line. `json.loads`, `json.dumps`, `splitlines`
-- and `strip` are parameters.
use swaybot.Prelude.{
  ◌⊎◌, unless, ℕ, String, ◌≡◌, ◌≢◌, refl, sym, ap, ◌∙◌, subst, Option, none, some, List, [], ◌∷◌,
  ◌++◌, arith, Result, ok, ◌>>=◌, >>=-eq-ok, Result-cases, ok-injective, ◌==◌, nat_eq, string_eq,
  eq_iff, if◌then◌else◌, Bool-cases, inl, inr, append_assoc,
}
use swaybot.Prelude.Dict.{lookup, insert, get_or, lookup-insert}
use swaybot.Prelude.Text.{◌⧺◌}
use swaybot.Json.{Value, Fields, arr, obj}
use swaybot.Storage.Records.{StorageError, to_list, limited}
use swaybot.Storage.Files.{Directory, path, atomic_write, path-ok}

module _ (loads : String → Option Value) (dumps : Value → String)
    (splitlines : String → List String) (strip : String → String) where
  -- A line that is blank, cannot be decoded or holds no object is passed over.
  abbrev decoded : Option Value → List Value
  decoded (some (obj fs)) = obj fs ∷ []
  decoded _ = []

  abbrev of_line : String → List Value
  of_line line = if strip line == "" then [] else decoded (loads (strip line))

  unfoldable pub of_lines : List String → List Value
  of_lines [] = []
  of_lines (line ∷ lines) = of_line line ++ of_lines lines

  abbrev read : Option ℕ → Option String → List Value
  read limit none = []
  read limit (some text) = limited limit (of_lines (splitlines text))

  unfoldable pub load_stream : String → Option ℕ → Directory → Result StorageError (List Value)
  load_stream k limit d = path k >>= λ k. ok (read limit (lookup k d.files))

  -- `isinstance(data, list)`
  abbrev records_of : Value → List Value
  records_of (arr vs) = to_list vs
  records_of v = v ∷ []

  unfoldable pub lines_of : List Value → String
  lines_of [] = ""
  lines_of (v ∷ vs) = (dumps v ⧺ "\n") ⧺ lines_of vs

  unfoldable pub save : String → Value → Directory → Result StorageError Directory
  save k v d = atomic_write k (lines_of (records_of v)) d

  unfoldable pub append : String → Fields → Directory → Result StorageError Directory
  append k r d = path k >>= λ k.
      ok (record d { files = insert k (get_or k d.files "" ⧺ dumps (obj r) ⧺ "\n") d.files })

  of_lines-append : (ks ls : List String) → of_lines (ks ++ ls) ≡ of_lines ks ++ of_lines ls
  unfolding of_lines
  of_lines-append [] ls = refl
  of_lines-append (k ∷ ks) ls =
      ap (λ vs. of_line k ++ vs) (of_lines-append ks ls)
      ∙ sym (append_assoc (of_line k) (of_lines ks) (of_lines ls))

  -- What a file with the text reads as, and none at all.
  read-or_empty :
      (o : Option String)
      → splitlines "" ≡ []
      → read none o ≡ of_lines (splitlines (elim o [ none ↦ "" | some t ↦ t ]))
  unfolding of_lines limited
  read-or_empty none h = sym (ap of_lines h)
  read-or_empty (some t) h = refl

  of_line-record :
      (r : Fields)
      → strip (dumps (obj r)) ≢ ""
      → loads (strip (dumps (obj r))) ≡ some (obj r)
      → of_lines (dumps (obj r) ∷ []) ≡ obj r ∷ []
  unfolding of_lines
  of_line-record r nonempty back = elim (Bool-cases (strip (dumps (obj r)) == "")) [
    | inl c ↦ absurd (nonempty ((eq_iff (strip (dumps (obj r))) "").0 c))
    | inr c ↦ rw (c, back)
  ]

  load_stream-eq :
      (k : String) (d : Directory)
      → path k ≡ ok k
      → load_stream k none d ≡ ok (read none (lookup k d.files))
  unfolding load_stream
  load_stream-eq k d safe = rw safe

  load_stream-there :
      (j : String) (d e : Directory)
      → lookup j e.files ≡ lookup j d.files
      → load_stream j none e ≡ load_stream j none d
  unfolding load_stream
  load_stream-there j d e h = elim (Result-cases (path j)) [
    | inl (i, p) ↦ rw ((path-ok j i p).0, h)
    | inr (x, p) ↦ rw p
  ]

  -- `append` adds its record at the end of what `load_stream` reads, if the text of the record is read
  -- back from its line and the line comes out of `splitlines` whole; the other keys read what they did.
  pub load_stream-append_line :
      (k j : String) (r : Fields) (d e : Directory)
      → splitlines "" ≡ []
      → strip (dumps (obj r)) ≢ ""
      → loads (strip (dumps (obj r))) ≡ some (obj r)
      → splitlines (get_or k d.files "" ⧺ dumps (obj r) ⧺ "\n")
        ≡ splitlines (get_or k d.files "") ++ dumps (obj r) ∷ []
      → append k r d ≡ ok e
      → (load_stream k none e ≡ (load_stream k none d >>= λ rs. ok (rs ++ obj r ∷ [])))
        × ((j ≡ k) ⊎ (load_stream j none e ≡ load_stream j none d))
  unfolding append
  load_stream-append_line k j r d e blank nonempty back whole h =
      let added : String → Directory =
        λ k. record d { files = insert k (get_or k d.files "" ⧺ dumps (obj r) ⧺ "\n") d.files } in
      let (i, p, q) = >>=-eq-ok (path k) (λ k. ok (added k)) h in
      let (safe, same) = path-ok k i p in
      let q' : added k ≡ e = subst (λ i. added i ≡ e) same (ok-injective q) in
      let text = get_or k d.files "" ⧺ dumps (obj r) ⧺ "\n" in
      let here : lookup k (added k).files ≡ some text =
        ground (arith, eq_iff k k, lookup-insert k k text d.files) in
      let line : of_lines (splitlines text)
          ≡ of_lines (splitlines (get_or k d.files "")) ++ obj r ∷ [] =
        ap of_lines whole
        ∙ of_lines-append (splitlines (get_or k d.files "")) (dumps (obj r) ∷ [])
        ∙ ap (λ vs. of_lines (splitlines (get_or k d.files "")) ++ vs)
            (of_line-record r nonempty back) in
      subst
        (λ x.
          (load_stream k none x ≡ (load_stream k none d >>= λ rs. ok (rs ++ obj r ∷ [])))
          × ((j ≡ k) ⊎ (load_stream j none x ≡ load_stream j none d)))
        q'
        (
          load_stream-eq k (added k) safe
              ∙ ap (λ o. ok (read none o)) here
              ∙ ap (λ vs. ok vs) (read-or_empty (some text) blank ∙ line)
              ∙ sym (
                  ap (λ m. m >>= λ rs. ok (rs ++ obj r ∷ []))
                    (load_stream-eq k d safe
                      ∙ ap (λ vs. ok vs) (read-or_empty (lookup k d.files) blank))),
          unless k j (λ n.
              load_stream-there j d (added k)
                (ground (arith, eq_iff k j, lookup-insert k j text d.files))),
        )
