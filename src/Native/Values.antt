-- ===== src/Native/Values.antt =====
-- How the callbacks of memori/native/_adapter.py read the JSON that the engine sends.
use Prim.Native.String.{◌++◌ as concat}
use memori.Prelude.{
  ℕ, String, Bool, true, false, not, Option, none, some, List, [], ◌∷◌, length, ◌==◌, str_eq,
  if◌then◌else◌,
}
use memori.Exec.{other, Exec, pure, or_raise, ◌>>=◌}
use memori.Json.{
  Json, null, boolean, number, text, array, object, Items, nil, cons, Fields, end, field, items,
  get,
}
use memori.Struct.{SemanticTriple}

-- Python's conversions. `repr` is `str(v)` of a value that is not a text; a number code is an int
-- or a float, `int_number` tells which, and an int is taken to be no less than 0; `int_of` is
-- `int(s)` of a text, `float_of` is `float(v)` as a bit pattern, both `none` where they raise.
pub record Values : Type 0 where
  pub repr : Json → String
  pub strip : String → String
  pub is_digit : String → Bool
  pub int_of : String → Option ℕ
  pub int_number : ℕ → Option ℕ
  pub is_zero : ℕ → Bool
  pub float_of : Json → Option ℕ

module _ (py : Values) where
  -- `str(v)`
  abbrev pub str : Json → String
  str (text s) = s
  str v = py.repr v

  -- `bool(v)`
  abbrev pub is_true : Json → Bool
  is_true null = false
  is_true (boolean b) = b
  is_true (number n) = not (py.is_zero n)
  is_true (text s) = not (str_eq s "")
  is_true (array nil) = false
  is_true (array (cons x xs)) = true
  is_true (object end) = false
  is_true (object (field k v rest)) = true

  -- `str(v)` of a value that is there and true
  abbrev pub given : Option Json → Option String
  given none = none
  given (some v) = if is_true v then some (str v) else none

  -- `_to_optional_int`, which is `_to_optional_driver_id` for a driver other than MongoDB's. A text
  -- such as "²" passes `isdigit` and is refused by `int`.
  unfoldable pub to_optional_int : {S : Type 0} → Option Json → Exec S (Option ℕ)
  to_optional_int none = pure none
  to_optional_int (some null) = pure none
  to_optional_int (some (boolean b)) = pure (some (if b then 1 else 0))
  to_optional_int (some (number n)) = pure (py.int_number n)
  to_optional_int (some (text s)) =
      if py.is_digit s then or_raise other (py.int_of s) >>= (λ i. pure (some i)) else pure none
  to_optional_int (some v) = pure none

  abbrev and_cons : {A : Type 0} → Option A → Option (List A) → Option (List A)
  and_cons none rest = none
  and_cons (some x) none = none
  and_cons (some x) (some xs) = some (x ∷ xs)

  -- `[float(item) for item in row]`
  unfoldable pub floats_of : Items → Option (List ℕ)
  floats_of nil = some []
  floats_of (cons x xs) = and_cons (py.float_of x) (floats_of xs)

  abbrev pub row_of : Json → Option (List ℕ)
  row_of (array xs) = floats_of xs
  row_of v = none

  -- the loop of `_normalize_fact_embeddings`
  unfoldable pub rows_of : Items → Option (List (List ℕ))
  unfolding floats_of
  rows_of nil = some []
  rows_of (cons x xs) = and_cons (row_of x) (rows_of xs)

  unfoldable pub normalize_fact_embeddings : Option Json → ℕ → Option (List (List ℕ))
  unfolding rows_of
  normalize_fact_embeddings none expected_count = none
  normalize_fact_embeddings (some (array xs)) expected_count =
      if length (items xs) == expected_count then rows_of xs else none
  normalize_fact_embeddings (some v) expected_count = none

  -- `isinstance(f, (str, int, float))`
  abbrev pub is_scalar : Json → Bool
  is_scalar (boolean b) = true
  is_scalar (number n) = true
  is_scalar (text s) = true
  is_scalar v = false

  unfoldable pub scalars : Items → List String
  scalars nil = []
  scalars (cons x xs) = let rest = scalars xs in if is_scalar x then str x ∷ rest else rest

  -- `facts_str`: none for a value that is not a list
  unfoldable pub facts_of : Option Json → List String
  unfolding scalars
  facts_of none = []
  facts_of (some (array xs)) = scalars xs
  facts_of (some v) = []

  -- The name and the type of a subject or an object.
  abbrev pub part_of : Option Json → Option Json × Option Json
  part_of none = (none, some (text "entity"))
  part_of (some (object d)) = (get "name" d, get "type" d)
  part_of (some v) = (some v, some (text "entity"))

  -- `str(x or "entity")`
  abbrev pub or_entity : Option String → String
  or_entity none = "entity"
  or_entity (some s) = s

  abbrev pub make_triple :
      Option String → String → Option String → Option String → String → Option SemanticTriple
  make_triple (some s) s_type (some p) (some o) o_type = some (record {
    subject_name = s;
    subject_type = s_type;
    predicate = p;
    object_name = o;
    object_type = o_type;
  })
  make_triple s s_type p o o_type = none

  unfoldable pub to_triple : Json → Option SemanticTriple
  to_triple (object d) =
      let (subject_name, subject_type) = part_of (get "subject" d) in
      let (object_name, object_type) = part_of (get "object" d) in
      make_triple (given subject_name) (or_entity (given subject_type)) (given (get "predicate" d))
        (given object_name) (or_entity (given object_type))
  to_triple v = none

  abbrev add_triple : Option SemanticTriple → List SemanticTriple → List SemanticTriple
  add_triple none ts = ts
  add_triple (some t) ts = t ∷ ts

  unfoldable pub triples_of : Items → List SemanticTriple
  unfolding to_triple
  triples_of nil = []
  triples_of (cons x xs) = add_triple (to_triple x) (triples_of xs)

  -- `_to_semantic_triples`
  unfoldable pub to_semantic_triples : Option Json → List SemanticTriple
  unfolding triples_of
  to_semantic_triples (some (array xs)) = triples_of xs
  to_semantic_triples v = []

  unfoldable pub non_blank : Items → List String
  non_blank nil = []
  non_blank (cons x xs) =
      let rest = non_blank xs in if str_eq (py.strip (str x)) "" then rest else str x ∷ rest

  -- `[f"{k}:{v}" for k, v in raw.items()]`
  unfoldable pub entries : Fields → List String
  entries end = []
  entries (field k v rest) = concat k (concat ":" (str v)) ∷ entries rest

  -- `_normalize_attributes`
  unfoldable pub normalize_attributes : Option Json → List String
  unfolding non_blank entries
  normalize_attributes none = []
  normalize_attributes (some null) = []
  normalize_attributes (some (array xs)) = non_blank xs
  normalize_attributes (some (object d)) = entries d
  normalize_attributes (some v) = str v ∷ []
