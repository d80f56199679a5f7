-- ===== src/Storage/Records.antt =====
-- The records of swaybot/storage.py: what the backends share.
use swaybot.Prelude.{
  ℕ, zero, suc, ◌≡◌, refl, ap, subst, arith, ◌++◌, err, String, Bool, true, false, ◌&&◌, Option,
  none, some, List, [], ◌∷◌, Result, ok, last_n, filter,
}
use swaybot.Json.{Value, Items, Fields, null, arr, obj, nil, cons, end, field, field_of}

pub data StorageError : Type 0 where
  empty_key no_list undecodable : StorageError
  invalid_key : String → StorageError

unfoldable pub to_list : Items → List Value
to_list nil = []
to_list (cons v vs) = v ∷ to_list vs

-- `list.append`
unfoldable pub items_snoc : Items → Value → Items
items_snoc nil v = cons v nil
items_snoc (cons u vs) v = cons u (items_snoc vs v)

-- `_normalize_stream_data`
unfoldable pub normalize_stream_data : Value → List Value
normalize_stream_data null = []
normalize_stream_data (obj fs) = obj fs ∷ []
normalize_stream_data (arr vs) = to_list vs
normalize_stream_data _ = []

-- `records[-limit:]`: a limit of 0 keeps every record.
unfoldable pub limited {ℓ} : {A : Type ℓ} → Option ℕ → List A → List A
limited none xs = xs
limited (some zero) xs = xs
limited (some (suc n)) xs = last_n (suc n) xs

-- `r.get(k)`, `None` where the key is missing.
abbrev pub value_of : String → Fields → Value
value_of k fs = elim (field_of k fs) [ none ↦ null | some v ↦ v ]

module _ (same : Value → Value → Bool) where
  -- `all(r.get(k) == v for k, v in filters.items())`
  abbrev pub fits : Fields → Fields → Bool
  fits r end = true
  fits r (field k v fs) = same (value_of k r) v && fits r fs

  abbrev pub matches : Fields → Value → Bool
  matches filters (obj r) = fits r filters
  matches filters _ = false

  -- The comprehension of `query`.
  unfoldable pub select : Fields → List Value → List Value
  select filters records = filter (matches filters) records

-- The value that `append` stores, from the value that is there.
abbrev pub appended : Fields → Value → Result StorageError Value
appended r null = ok (arr (cons (obj r) nil))
appended r (arr vs) = ok (arr (items_snoc vs (obj r)))
appended r _ = err no_list

to_list-snoc : (vs : Items) (v : Value) → to_list (items_snoc vs v) ≡ to_list vs ++ v ∷ []
unfolding to_list items_snoc
to_list-snoc nil v = refl
to_list-snoc (cons u vs) v = ap (λ us. u ∷ us) (to_list-snoc vs v)

-- The records that `append` leaves at a key.
pub appended-records :
    (r : Fields) (u v : Value)
    → appended r u ≡ ok v
    → normalize_stream_data v ≡ normalize_stream_data u ++ obj r ∷ []
unfolding normalize_stream_data items_snoc to_list
appended-records r null v h =
    let q : arr (cons (obj r) nil) ≡ v = ground (arith, h) in
    subst (λ x. normalize_stream_data x ≡ obj r ∷ []) q (to_list-snoc nil (obj r))
appended-records r (arr vs) v h =
    let q : arr (items_snoc vs (obj r)) ≡ v = ground (arith, h) in
    subst (λ x. normalize_stream_data x ≡ to_list vs ++ obj r ∷ []) q (to_list-snoc vs (obj r))
appended-records r _ v h = ground (arith, h)

-- What the goals use of a backend: a value stored at a key, and the keys of a prefix.
pub record Backend (S : Type 0) : Type 0 where
  pub load : String → S → Result StorageError Value
  pub save : String → Value → S → Result StorageError S
  pub list_keys : String → S → List String
  pub load-save : (k : String) (v : Value) (s t : S) → save k v s ≡ ok t → load k t ≡ ok v
