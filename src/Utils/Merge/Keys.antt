-- ===== src/Utils/Merge/Keys.antt =====
-- What a dict has at each key after a chunk is merged into it.
use memori.Prelude.{
  ap, Bool, true, false, ◌∷◌, ◌++◌, String, str_eq, eq_iff, Option, none, some, ◌≡◌, refl, ◌∙◌,
  arith, Bool-cases, inl, inr, if◌then◌else◌,
}
use memori.Json.{
  Json, null, boolean, number, text, array, object, Items, nil, cons, Fields, end, field, items,
  extend, get, put, IsDict,
}
use memori.Utils.Merge.{merge_chunk, merge_value}

pub get-put :
    (j k : String) (v : Json) (d : Fields)
    → get j (put k v d) ≡ (if str_eq k j then some v else get j d)
get-put j k v end = refl
get-put j k v (field k' w rest) =
    ground (arith, get-put j k v rest, eq_iff k' k, eq_iff k' j, eq_iff k j)

-- The value of a key, given what the dict and the chunk have there.
abbrev pub merged : Option Json → Option Json → Option Json
merged old none = old
merged old (some v) = some (merge_value old v)

-- The values of the keys of the chunk are merged in one after another.
get-merge_chunk :
    (key : String) (dict chunk : Fields)
    → IsDict chunk
    → get key (merge_chunk dict chunk) ≡ merged (get key dict) (get key chunk)
unfolding merge_chunk
get-merge_chunk key dict end h = refl
get-merge_chunk key dict (field k v rest) h =
    let m = merge_value (get k dict) v in get-merge_chunk key (put k m dict) rest h.1 ∙ go
  where
    go :
        merged (get key (put k (merge_value (get k dict) v) dict)) (get key rest)
        ≡ merged (get key dict) (if str_eq k key then some v else get key rest)
    go = elim (Bool-cases (str_eq k key)) [
      | inl same ↦
          rw (get-put key k (merge_value (get k dict) v) dict, same)
            (rw (← (eq_iff k key).0 same) (rw h.0 refl))
      | inr other ↦ rw (get-put key k (merge_value (get k dict) v) dict, other) refl
    ]

-- Both are lists, or both are dicts.
abbrev same_kind : Option Json → Json → Bool
same_kind (some (array xs)) (array ys) = true
same_kind (some (object d)) (object c) = true
same_kind old v = false

-- What a key has of the dict, of the chunk and of their merge: a key that the chunk lacks keeps its
-- value; a list has the chunk's items after its own; a dict has the same at each of its keys; and any
-- other value is replaced.
pub data Merges : Option Json → Option Json → Option Json → Type 0 where
  kept : {old : Option Json} → Merges old none old
  appended :
      {xs ys zs : Items}
      → items zs ≡ items xs ++ items ys
      → Merges (some (array xs)) (some (array ys)) (some (array zs))
  merged_at :
      {d c e : Fields}
      → ((key : String) → Merges (get key d) (get key c) (get key e))
      → Merges (some (object d)) (some (object c)) (some (object e))
  replaced : {old : Option Json} {v : Json} → same_kind old v ≡ false → Merges old (some v) (some v)

-- No dict in the value has a key twice.
unfoldable mutual
  pub AreDicts : Json → Type 0
  AreDicts (array xs) = Unit
  AreDicts (object d) = IsDict d × AllDicts d
  AreDicts v = Unit

  pub AllDicts : Fields → Type 0
  AllDicts end = Unit
  AllDicts (field k v rest) = AreDicts v × AllDicts rest

Merges-if :
    (old : Option Json) (v : Json) (later : Option Json) (b : Bool)
    → Merges old (some v) (some (merge_value old v))
    → Merges old later (merged old later)
    → Merges old (if b then some v else later) (merged old (if b then some v else later))
Merges-if old v later true h h' = h
Merges-if old v later false h h' = h'

items-extend : (xs ys : Items) → items (extend xs ys) ≡ items xs ++ items ys
items-extend nil ys = refl
items-extend (cons x xs) ys = ap (◌∷◌ x) (items-extend xs ys)

Merges-merge_chunk :
    (d c : Fields)
    → IsDict c
    → ((key : String) → Merges (get key d) (get key c) (merged (get key d) (get key c)))
    → (key : String) → Merges (get key d) (get key c) (get key (merge_chunk d c))
Merges-merge_chunk d c h all key = rw (get-merge_chunk key d c h) (all key)

mutual
  unfolding merge_value AreDicts

  Merges-value :
      (old : Option Json) (v : Json) → AreDicts v → Merges old (some v) (some (merge_value old v))
  Merges-value (some (array xs)) (array ys) h = appended (items-extend xs ys)
  Merges-value (some (object d)) (object c) h =
      merged_at (Merges-merge_chunk d c h.0 (λ key. Merges-field (get key d) c key h.1))
  Merges-value none v h = replaced refl
  Merges-value (some null) v h = replaced refl
  Merges-value (some (boolean b)) v h = replaced refl
  Merges-value (some (number n)) v h = replaced refl
  Merges-value (some (text t)) v h = replaced refl
  Merges-value (some (array xs)) null h = replaced refl
  Merges-value (some (array xs)) (boolean b) h = replaced refl
  Merges-value (some (array xs)) (number n) h = replaced refl
  Merges-value (some (array xs)) (text t) h = replaced refl
  Merges-value (some (array xs)) (object c) h = replaced refl
  Merges-value (some (object d)) null h = replaced refl
  Merges-value (some (object d)) (boolean b) h = replaced refl
  Merges-value (some (object d)) (number n) h = replaced refl
  Merges-value (some (object d)) (text t) h = replaced refl
  Merges-value (some (object d)) (array ys) h = replaced refl

  Merges-field :
      (old : Option Json) (c : Fields) (key : String)
      → AllDicts c
      → Merges old (get key c) (merged old (get key c))
  Merges-field old end key h = kept
  Merges-field old (field k v rest) key h =
      Merges-if old v (get key rest) (str_eq k key) (Merges-value old v h.0)
        (Merges-field old rest key h.1)

-- After a chunk is merged into a dict, each key has what the rules of `Merges` say: of two lists the
-- dict's items with the chunk's after them, of two dicts the same again at each key, of other values
-- the chunk's; a key that only one of them has keeps its value. The chunk has no key twice, nor has a
-- dict within it.
pub merge_chunk-Merges :
    (dict chunk : Fields) (key : String)
    → AreDicts (object chunk)
    → Merges (get key dict) (get key chunk) (get key (merge_chunk dict chunk))
unfolding AreDicts
merge_chunk-Merges dict chunk key h =
    Merges-merge_chunk dict chunk h.0 (λ k. Merges-field (get k dict) chunk k h.1) key
