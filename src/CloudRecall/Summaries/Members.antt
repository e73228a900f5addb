-- ===== src/CloudRecall/Summaries/Members.antt =====
-- memori/memory/recall.py: what it is to be a summary of one of the facts.
use memori.Prelude.{String, ◌≡◌, some, List, [], ◌∷◌, ◌++◌, ◌⊎◌, inl, inr, All}
use memori.Json.{
  Json, null, boolean, number, text, array, object, Items, nil, cons, Fields, items, get,
}
use memori.CloudRecall.{collect_cloud_summary_items}

-- `x` is an element.
pub data IsIn {A : Type 0} (x : A) : List A → Type 0 where
  here : {xs : List A} → IsIn x (x ∷ xs)
  there : {y : A} {xs : List A} → IsIn x xs → IsIn x (y ∷ xs)

-- The content of a summary is the text `t`.
pub data Says : Json → String → Type 0 where
  says : {d : Fields} {t : String} → get "content" d ≡ some (text t) → Says (object d) t

-- The fact has a list of summaries, and `s` is one of them.
pub data InFact (s : Json) : Json → Type 0 where
  in_fact :
      {d : Fields} {xs : Items}
      → get "summaries" d ≡ some (array xs)
      → IsIn s (items xs)
      → InFact s (object d)

pub record IsAmong (facts : List Json) (s : Json) : Type 0 where
  pub fact : Json
  pub given : IsIn fact facts
  pub inside : InFact s fact

module _ {A : Type 0} where
  pub All-IsIn : (P : A → Type 0) (x : A) (l : List A) → All P l → IsIn x l → P x
  All-IsIn P x [] h i = elim i [ ]
  All-IsIn P x (y ∷ l) h here = h.0
  All-IsIn P x (y ∷ l) h (there i) = All-IsIn P x l h.1 i

  pub IsIn-All : (P : A → Type 0) (l : List A) → ((x : A) → IsIn x l → P x) → All P l
  IsIn-All P [] h = tt
  IsIn-All P (x ∷ l) h = (h x here, IsIn-All P l (λ y i. h y (there i)))

  pub IsIn-left : (x : A) (l m : List A) → IsIn x l → IsIn x (l ++ m)
  IsIn-left x [] m i = elim i [ ]
  IsIn-left x (y ∷ l) m here = here
  IsIn-left x (y ∷ l) m (there i) = there (IsIn-left x l m i)

  pub IsIn-right : (x : A) (l m : List A) → IsIn x m → IsIn x (l ++ m)
  IsIn-right x [] m i = i
  IsIn-right x (y ∷ l) m i = there (IsIn-right x l m i)

  pub IsIn-append : (x : A) (l m : List A) → IsIn x (l ++ m) → IsIn x l ⊎ IsIn x m
  IsIn-append x [] m i = inr i
  IsIn-append x (y ∷ l) m here = inl here
  IsIn-append x (y ∷ l) m (there i) = elim (IsIn-append x l m i) [
    | inl j ↦ inl (there j)
    | inr j ↦ inr j
  ]

module _ {A : Type 0} (P : A → Type 0) where
  pub All-left : (l m : List A) → All P (l ++ m) → All P l
  All-left [] m h = tt
  All-left (x ∷ l) m h = (h.0, All-left l m h.1)

  pub All-right : (l m : List A) → All P (l ++ m) → All P m
  All-right [] m h = h
  All-right (x ∷ l) m h = All-right l m h.1

-- The dicts of a list are just those of its items that are collected.
pub IsIn-collect :
    (d : Fields) (xs : Items)
    → IsIn (object d) (items xs)
    → IsIn (object d) (items (collect_cloud_summary_items xs))
unfolding collect_cloud_summary_items
IsIn-collect d nil i = elim i [ ]
IsIn-collect d (cons (object e) xs) here = here
IsIn-collect d (cons (object e) xs) (there i) = there (IsIn-collect d xs i)
IsIn-collect d (cons null xs) (there i) = IsIn-collect d xs i
IsIn-collect d (cons (boolean b) xs) (there i) = IsIn-collect d xs i
IsIn-collect d (cons (number n) xs) (there i) = IsIn-collect d xs i
IsIn-collect d (cons (text t) xs) (there i) = IsIn-collect d xs i
IsIn-collect d (cons (array ys) xs) (there i) = IsIn-collect d xs i

pub IsIn-collected :
    (s : Json) (xs : Items) → IsIn s (items (collect_cloud_summary_items xs)) → IsIn s (items xs)
unfolding collect_cloud_summary_items
IsIn-collected s nil i = elim i [ ]
IsIn-collected s (cons (object e) xs) here = here
IsIn-collected s (cons (object e) xs) (there i) = there (IsIn-collected s xs i)
IsIn-collected s (cons null xs) i = there (IsIn-collected s xs i)
IsIn-collected s (cons (boolean b) xs) i = there (IsIn-collected s xs i)
IsIn-collected s (cons (number n) xs) i = there (IsIn-collected s xs i)
IsIn-collected s (cons (text t) xs) i = there (IsIn-collected s xs i)
IsIn-collected s (cons (array ys) xs) i = there (IsIn-collected s xs i)
