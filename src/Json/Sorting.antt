-- ===== src/Json/Sorting.antt =====
-- `_sort_value` of swaybot/loop_guards.py, and JSON values that differ only in the order of their keys.
use swaybot.Prelude.{String, Bool, true, false, ◌≡◌, ◌≢◌, refl, ap, ◌∙◌, arith, if◌then◌else◌}
use swaybot.Json.{
  Value, Items, Fields, null, bool, int, float, str, arr, obj, nil, cons, end, field,
}

-- Python's order of texts, by code points.
pub record TextOrder (le : String → String → Bool) : Type 0 where
  pub le_antisymm : (a b : String) → le a b ≡ true → le b a ≡ true → a ≡ b
  pub le_trans : (a b c : String) → le a b ≡ true → le b c ≡ true → le a c ≡ true
  pub le_total : (a b : String) → le a b ≡ false → le b a ≡ true

module _ (le : String → String → Bool) where
  -- `sorted` puts a key before the first one that does not come before it.
  unfoldable pub insert_field : String → Value → Fields → Fields
  insert_field k v end = field k v end
  insert_field k v (field j w fs) =
      if le k j then field k v (field j w fs) else field j w (insert_field k v fs)

unfoldable mutual
  pub sort_value : (String → String → Bool) → Value → Value
  sort_value le null = null
  sort_value le (bool b) = bool b
  sort_value le (int s n) = int s n
  sort_value le (float t) = float t
  sort_value le (str t) = str t
  sort_value le (arr xs) = arr (sort_items le xs)
  sort_value le (obj fs) = obj (sort_fields le fs)

  pub sort_items : (String → String → Bool) → Items → Items
  sort_items le nil = nil
  sort_items le (cons v xs) = cons (sort_value le v) (sort_items le xs)

  pub sort_fields : (String → String → Bool) → Fields → Fields
  sort_fields le end = end
  sort_fields le (field k v fs) = insert_field le k (sort_value le v) (sort_fields le fs)

-- Values that differ by the order of keys, at any depth: neighbours with distinct keys change places.
mutual
  pub data SameValue : Value → Value → Type 0 where
    same : (v : Value) → SameValue v v
    in_arr : {xs ys : Items} → SameItems xs ys → SameValue (arr xs) (arr ys)
    in_obj : {fs gs : Fields} → SameFields fs gs → SameValue (obj fs) (obj gs)

  pub data SameItems : Items → Items → Type 0 where
    no_items : SameItems nil nil
    items :
        {v w : Value} {xs ys : Items}
        → SameValue v w
        → SameItems xs ys
        → SameItems (cons v xs) (cons w ys)

  pub data SameFields : Fields → Fields → Type 0 where
    no_fields : SameFields end end
    fields :
        (k : String) {v w : Value} {fs gs : Fields}
        → SameValue v w
        → SameFields fs gs
        → SameFields (field k v fs) (field k w gs)
    swapped :
        (k j : String) (v w : Value) (fs : Fields)
        → k ≢ j
        → SameFields (field k v (field j w fs)) (field j w (field k v fs))
    then_fields : {fs gs hs : Fields} → SameFields fs gs → SameFields gs hs → SameFields fs hs

module _ (le : String → String → Bool) (o : TextOrder le) where
  insert_field_comm :
      (k j : String) (v w : Value) (fs : Fields)
      → k ≢ j
      → insert_field le k v (insert_field le j w fs) ≡ insert_field le j w (insert_field le k v fs)
  unfolding insert_field
  insert_field_comm k j v w end ne =
      ground (arith, o.le_antisymm k j, o.le_total k j, o.le_antisymm j k, o.le_total j k)
  insert_field_comm k j v w (field i u fs) ne = ground (
    arith,
    o.le_antisymm k j,
    o.le_total k j,
    o.le_trans k j i,
    o.le_trans j k i,
    o.le_total j k,
    o.le_total i k,
    o.le_total i j,
    o.le_trans i k j,
    o.le_trans k i j,
    o.le_trans j i k,
    insert_field_comm k j v w fs ne,
  )

  mutual
    unfolding sort_value

    sort-SameValue : {v w : Value} → SameValue v w → sort_value le v ≡ sort_value le w
    sort-SameValue (same v) = refl
    sort-SameValue (in_arr h) = ap arr (sort-SameItems h)
    sort-SameValue (in_obj h) = ap obj (sort-SameFields h)

    sort-SameItems : {xs ys : Items} → SameItems xs ys → sort_items le xs ≡ sort_items le ys
    sort-SameItems no_items = refl
    sort-SameItems (items h t) = cc (sort-SameValue h, sort-SameItems t)

    sort-SameFields : {fs gs : Fields} → SameFields fs gs → sort_fields le fs ≡ sort_fields le gs
    sort-SameFields no_fields = refl
    sort-SameFields (fields k h t) = cc (sort-SameValue h, sort-SameFields t)
    sort-SameFields (swapped k j v w fs ne) =
        insert_field_comm k j (sort_value le v) (sort_value le w) (sort_fields le fs) ne
    sort-SameFields (then_fields h t) = sort-SameFields h ∙ sort-SameFields t

  -- Arguments that differ only in the order of keys, at any depth, are sorted to one value, whenever
  -- `le` orders texts.
  pub sort_value-SameValue : {v w : Value} → SameValue v w → sort_value le v ≡ sort_value le w
  sort_value-SameValue h = sort-SameValue h
