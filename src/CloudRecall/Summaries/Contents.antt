-- ===== src/CloudRecall/Summaries/Contents.antt =====
-- The summaries that are collected, by what the facts contain.
use memori.Prelude.{
  String, ◌≡◌, refl, subst, false, true, Option, none, some, List, [], ◌∷◌, inl, inr, any, All,
  All-append, str_eq, Bool-cases,
}
use memori.Json.{
  Json, null, boolean, number, text, array, object, Items, nil, cons, Fields, items, get,
}
use memori.CloudRecall.{Values, existing, list_of}
use memori.CloudRecall.Summaries.{
  Collected, key_in, content_key, has, collect_key, collect_from, summaries_in, collect_all,
  collect_cloud_summaries_from_facts,
}
use memori.CloudRecall.Summaries.Distinct.{
  HasKey, IsDistinct, IsCovered, keys_of, all_summaries, collect_cloud_summaries_from_facts-keys,
}
use memori.CloudRecall.Summaries.Members.{
  IsIn, here, there, Says, says, InFact, in_fact, IsAmong, All-IsIn, IsIn-All, IsIn-left,
  IsIn-right, IsIn-append, All-left, All-right, IsIn-collect, IsIn-collected,
}

module _ (py : Values) where
  -- `keys` are the contents of the summaries without the blanks around them, and none is empty.
  pub data Keys : List Json → List String → Type 0 where
    no_keys : Keys [] []
    key :
        {s : Json} {t : String} {ss : List Json} {keys : List String}
        → Says s t
        → str_eq (py.strip t) "" ≡ false
        → Keys ss keys
        → Keys (s ∷ ss) (py.strip t ∷ keys)

  record IsKey (s : Json) (k : String) : Type 0 where
    content : String
    said : Says s content
    solid : str_eq (py.strip content) "" ≡ false
    same : py.strip content ≡ k

  text-IsKey :
      (d : Fields) (t k : String)
      → get "content" d ≡ some (text t)
      → key_in py (some (text t)) ≡ some k
      → IsKey (object d) k
  text-IsKey d t k h q = elim (Bool-cases (str_eq (py.strip t) "")) [
    | inl e ↦ let q' = rw e at q in cc
    | inr e ↦ record { content = t; said = says h; solid = e; same = let q' = rw e at q in cc }
  ]

  content-IsKey :
      (d : Fields) (v : Option Json) (k : String)
      → get "content" d ≡ v
      → key_in py v ≡ some k
      → IsKey (object d) k
  content-IsKey d (some (text t)) k h q = text-IsKey d t k h q
  content-IsKey d none k h q = cc
  content-IsKey d (some null) k h q = cc
  content-IsKey d (some (boolean b)) k h q = cc
  content-IsKey d (some (number n)) k h q = cc
  content-IsKey d (some (array xs)) k h q = cc
  content-IsKey d (some (object e)) k h q = cc

  content_key-IsKey : (s : Json) (k : String) → content_key py s ≡ some k → IsKey s k
  content_key-IsKey (object d) k h = content-IsKey d (get "content" d) k refl h
  content_key-IsKey null k h = cc
  content_key-IsKey (boolean b) k h = cc
  content_key-IsKey (number n) k h = cc
  content_key-IsKey (text t) k h = cc
  content_key-IsKey (array xs) k h = cc

  Says-content_key :
      (s : Json) (t : String)
      → Says s t
      → str_eq (py.strip t) "" ≡ false
      → content_key py s ≡ some (py.strip t)
  Says-content_key (object d) t (says h) e = rw (h, e) refl
  Says-content_key null t i e = elim i [ ]
  Says-content_key (boolean b) t i e = elim i [ ]
  Says-content_key (number n) t i e = elim i [ ]
  Says-content_key (text x) t i e = elim i [ ]
  Says-content_key (array xs) t i e = elim i [ ]

  Keys-keys_of : (ss : List Json) → All (HasKey py) ss → Keys ss (keys_of py ss)
  Keys-keys_of [] h = no_keys
  Keys-keys_of (s ∷ ss) h =
      let (k, e) = h.0 in
      let c = content_key-IsKey s k e in
      rw e (
        subst (λ j. Keys (s ∷ ss) (j ∷ keys_of py ss)) c.same
          (key c.said c.solid (Keys-keys_of ss h.1)))

  -- What stands in a fact is looked at.
  InFact-summaries :
      (d f : Fields) (xs : Items)
      → get "summaries" f ≡ some (array xs)
      → IsIn (object d) (items xs)
      → IsIn (object d) (items (summaries_in py (object f)))
  InFact-summaries d f xs h i = rw h (IsIn-collect d xs i)

  list-InFact :
      (s : Json) (d : Fields) (v : Option Json)
      → get "summaries" d ≡ v
      → IsIn s (items (existing py (list_of v)))
      → InFact s (object d)
  list-InFact s d (some (array xs)) h i = in_fact h (IsIn-collected s xs i)
  list-InFact s d none h i = elim i [ ]
  list-InFact s d (some null) h i = elim i [ ]
  list-InFact s d (some (boolean b)) h i = elim i [ ]
  list-InFact s d (some (number n)) h i = elim i [ ]
  list-InFact s d (some (text t)) h i = elim i [ ]
  list-InFact s d (some (object e)) h i = elim i [ ]

  summaries-InFact : (s f : Json) → IsIn s (items (summaries_in py f)) → InFact s f
  summaries-InFact s (object d) i = list-InFact s d (get "summaries" d) refl i
  summaries-InFact s null i = elim i [ ]
  summaries-InFact s (boolean b) i = elim i [ ]
  summaries-InFact s (number n) i = elim i [ ]
  summaries-InFact s (text t) i = elim i [ ]
  summaries-InFact s (array xs) i = elim i [ ]

  IsIn-all_summaries :
      (s f : Json) (facts : List Json)
      → IsIn f facts
      → IsIn s (items (summaries_in py f))
      → IsIn s (all_summaries py facts)
  IsIn-all_summaries s f [] i j = elim i [ ]
  IsIn-all_summaries s f (g ∷ facts) here j =
      IsIn-left s (items (summaries_in py f)) (all_summaries py facts) j
  IsIn-all_summaries s f (g ∷ facts) (there i) j =
      IsIn-right s (items (summaries_in py g)) (all_summaries py facts)
        (IsIn-all_summaries s f facts i j)

  all_summaries-IsAmong :
      (s : Json) (facts : List Json) → IsIn s (all_summaries py facts) → IsAmong facts s
  all_summaries-IsAmong s [] i = elim i [ ]
  all_summaries-IsAmong s (f ∷ facts) i =
      elim (IsIn-append s (items (summaries_in py f)) (all_summaries py facts) i) [
        | inl j ↦ record { fact = f; given = here; inside = summaries-InFact s f j }
        | inr j ↦
            let a = all_summaries-IsAmong s facts j in
            record { fact = a.fact; given = there a.given; inside = a.inside }
      ]

  -- What is collected is what was there and what is looked at.
  module _ (P : Json → Type 0) where
    collect_key-All :
        (s : Json) (o : Option String) (c : Collected)
        → P s
        → All P c.summaries
        → All P (collect_key py s o c).summaries
    collect_key-All s none c p h = h
    collect_key-All s (some k) c p h = elim (Bool-cases (has py k c.seen)) [
      | inl e ↦ rw e h
      | inr e ↦ rw e (All-append P c.summaries (s ∷ []) h (p, tt))
    ]

    collect_from-All :
        (xs : Items) (c : Collected)
        → All P (items xs)
        → All P c.summaries
        → All P (collect_from py xs c).summaries
    unfolding collect_from
    collect_from-All nil c p h = h
    collect_from-All (cons s xs) c p h =
        collect_from-All xs (collect_key py s (content_key py s) c) p.1
          (collect_key-All s (content_key py s) c p.0 h)

    collect_all-All :
        (facts : List Json) (c : Collected)
        → All P (all_summaries py facts)
        → All P c.summaries
        → All P (collect_all py facts c).summaries
    unfolding collect_all
    collect_all-All [] c p h = h
    collect_all-All (f ∷ facts) c p h =
        let own = All-left P (items (summaries_in py f)) (all_summaries py facts) p in
        let rest = All-right P (items (summaries_in py f)) (all_summaries py facts) p in
        collect_all-All facts (collect_from py (summaries_in py f) c) rest
          (collect_from-All (summaries_in py f) c own h)

  -- The content of each summary of a fact is among `keys`, but for the blanks around it.
  pub record Covers (facts : List Json) (keys : List String) : Type 0 where
    pub covered :
        (f s : Json) (t : String)
        → IsIn f facts
        → InFact s f
        → Says s t
        → str_eq (py.strip t) "" ≡ false
        → any (λ k. str_eq k (py.strip t)) keys ≡ true

  -- What the summaries `ss` of the facts promise.
  pub record Collects (facts ss : List Json) : Type 0 where
    pub keys : List String
    pub contents : Keys ss keys
    pub distinct : IsDistinct py keys
    pub complete : Covers facts keys
    pub sound : All (IsAmong facts) ss

  said-covered :
      (facts : List Json) (keys : List String)
      → All (IsCovered py keys) (all_summaries py facts)
      → (f s : Json) (t : String) → IsIn f facts
      → InFact s f
      → Says s t
      → str_eq (py.strip t) "" ≡ false
      → has py (py.strip t) keys ≡ true
  said-covered facts keys h (object f) (object d) t i (in_fact q j) (says e) solid =
      All-IsIn (IsCovered py keys) (object d) (all_summaries py facts) h
        (IsIn-all_summaries (object d) (object f) facts i (InFact-summaries d f _ q j)) (py.strip t)
        (Says-content_key (object d) t (says e) solid)
  said-covered facts keys h null s t i j u solid = elim j [ ]
  said-covered facts keys h (boolean b) s t i j u solid = elim j [ ]
  said-covered facts keys h (number n) s t i j u solid = elim j [ ]
  said-covered facts keys h (text x) s t i j u solid = elim j [ ]
  said-covered facts keys h (array xs) s t i j u solid = elim j [ ]
  said-covered facts keys h (object f) null t i j u solid = elim u [ ]
  said-covered facts keys h (object f) (boolean b) t i j u solid = elim u [ ]
  said-covered facts keys h (object f) (number n) t i j u solid = elim u [ ]
  said-covered facts keys h (object f) (text x) t i j u solid = elim u [ ]
  said-covered facts keys h (object f) (array xs) t i j u solid = elim u [ ]

-- The summaries that are collected are summaries of the facts whose contents are texts that are not
-- blank; no two have the same content but for blanks around it; and each content of a summary of a
-- fact that is a text and not blank is, but for blanks around it, the content of one of them.
pub collect_cloud_summaries_from_facts-Collects :
    (py : Values) (facts : List Json)
    → Collects py facts (collect_cloud_summaries_from_facts py facts)
unfolding collect_cloud_summaries_from_facts
collect_cloud_summaries_from_facts-Collects py facts =
    let run = collect_cloud_summaries_from_facts-keys py facts in
    let ss = collect_cloud_summaries_from_facts py facts in
    record {
      keys = keys_of py ss;
      contents = Keys-keys_of py ss run.0;
      distinct = run.1;
      complete = record { covered = said-covered py facts (keys_of py ss) run.2 };
      sound =
          collect_all-All py (IsAmong facts) facts (record { summaries = []; seen = [] })
            (IsIn-All (IsAmong facts) (all_summaries py facts)
              (λ s i. all_summaries-IsAmong py s facts i))
            tt;
    }
