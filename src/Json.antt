-- ===== src/Json.antt =====
-- The values that `json.loads` gives, and Python's dicts of them. A number is known by a code for it.
use memori.Prelude.{ℕ, String, Bool, Option, none, some, List, [], ◌∷◌, str_eq, if◌then◌else◌, ◌≡◌}

mutual
  pub data Json : Type 0 where
    null : Json
    boolean : Bool → Json
    number : ℕ → Json
    text : String → Json
    array : Items → Json
    object : Fields → Json

  pub data Items : Type 0 where
    nil : Items
    cons : Json → Items → Items

  -- The entries of a dict, in their order.
  pub data Fields : Type 0 where
    end : Fields
    field : String → Json → Fields → Fields

abbrev pub extend : Items → Items → Items
extend nil ys = ys
extend (cons x xs) ys = cons x (extend xs ys)

abbrev pub items : Items → List Json
items nil = []
items (cons x xs) = x ∷ items xs

-- `d.get(key)`, where `none` is a missing key
abbrev pub get : String → Fields → Option Json
get key end = none
get key (field k v rest) = if str_eq k key then some v else get key rest

-- `d[key] = v`: in its place, or at the end
abbrev pub put : String → Json → Fields → Fields
put key v end = field key v end
put key v (field k w rest) = if str_eq k key then field k v rest else field k w (put key v rest)

-- A dict has no key twice.
abbrev pub IsDict : Fields → Type 0
IsDict end = Unit
IsDict (field k v rest) = (get k rest ≡ none) × IsDict rest
