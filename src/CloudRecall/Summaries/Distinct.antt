-- ===== src/CloudRecall/Summaries/Distinct.antt =====
-- The summaries that are collected: each content once.
use memori.Prelude.{
  String, ◌≡◌, refl, ap, true, false, Option, none, some, List, [], ◌∷◌, ◌++◌, any-append, All,
  All-append, str_eq, eq_iff, arith, Bool-cases, inl, inr,
}
use memori.Json.{Json, Items, nil, cons, items}
use memori.CloudRecall.{Values}
use memori.CloudRecall.Summaries.{
  Collected, content_key, has, collect_key, collect_from, summaries_in, collect_all,
  collect_cloud_summaries_from_facts,
}

module _ (py : Values) where
  abbrev pub key_list : Option String → List String → List String
  key_list none keys = keys
  key_list (some k) keys = k ∷ keys

  abbrev pub keys_of : List Json → List String
  keys_of [] = []
  keys_of (s ∷ ss) = key_list (content_key py s) (keys_of ss)

  -- No key twice.
  abbrev pub IsDistinct : List String → Type 0
  IsDistinct [] = Unit
  IsDistinct (k ∷ keys) = (has py k keys ≡ false) × IsDistinct keys

  -- A summary whose content is not blank has its content, but for blanks around it, among `keys`.
  abbrev pub IsCovered : List String → Json → Type 0
  IsCovered keys s = (k : String) → content_key py s ≡ some k → has py k keys ≡ true

  abbrev pub HasKey : Json → Type 0
  HasKey s = (k : String) × (content_key py s ≡ some k)

  record IsCollected (c : Collected) : Type 0 where
    same : (k : String) → has py k c.seen ≡ has py k (keys_of c.summaries)
    distinct : IsDistinct (keys_of c.summaries)
    keyed : All HasKey c.summaries

  keys_of-append :
      (ss : List Json) (s : Json) (k : String)
      → content_key py s ≡ some k
      → keys_of (ss ++ s ∷ []) ≡ keys_of ss ++ k ∷ []
  keys_of-append [] s k h = rw h refl
  keys_of-append (x ∷ ss) s k h = go (content_key py x) (keys_of-append ss s k h)
    where
      go :
          (o : Option String)
          → keys_of (ss ++ s ∷ []) ≡ keys_of ss ++ k ∷ []
          → key_list o (keys_of (ss ++ s ∷ [])) ≡ key_list o (keys_of ss) ++ k ∷ []
      go none ih = ih
      go (some j) ih = ap (◌∷◌ j) ih

  IsDistinct-append :
      (keys : List String) (k : String)
      → has py k keys ≡ false
      → IsDistinct keys
      → IsDistinct (keys ++ k ∷ [])
  IsDistinct-append [] k h d = (refl, tt)
  IsDistinct-append (j ∷ keys) k h d = (
    ground (arith, any-append (λ i. str_eq i j) keys (k ∷ []), eq_iff j k, eq_iff k j),
    IsDistinct-append keys k (ground arith) d.1,
  )

  All-end : (ss : List Json) (s : Json) → All HasKey ss → HasKey s → All HasKey (ss ++ s ∷ [])
  All-end ss s h k = All-append HasKey ss (s ∷ []) h (k, tt)

  added-IsCollected :
      (s : Json) (key : String) (c : Collected)
      → content_key py s ≡ some key
      → has py key c.seen ≡ false
      → IsCollected c
      → IsCollected (record { summaries = c.summaries ++ s ∷ []; seen = key ∷ c.seen })
  added-IsCollected s key c h new inv = record {
    same = λ k.
        rw (keys_of-append c.summaries s key h) (
          ground
            (arith, any-append (λ i. str_eq i k) (keys_of c.summaries) (key ∷ []), inv.same k));
    distinct =
        rw (keys_of-append c.summaries s key h)
          (IsDistinct-append (keys_of c.summaries) key (ground (arith, inv.same key)) inv.distinct);
    keyed = All-end c.summaries s inv.keyed (key, h);
  }

  collect_key-IsCollected :
      (s : Json) (o : Option String) (c : Collected)
      → content_key py s ≡ o
      → IsCollected c
      → IsCollected (collect_key py s o c)
  collect_key-IsCollected s none c h inv = inv
  collect_key-IsCollected s (some key) c h inv = elim (Bool-cases (has py key c.seen)) [
    | inl old ↦ rw old inv
    | inr new ↦ rw new (added-IsCollected s key c h new inv)
  ]

  -- What is seen stays seen.
  abbrev Grows : Collected → Collected → Type 0
  Grows c c' = (k : String) → has py k c.seen ≡ true → has py k c'.seen ≡ true

  collect_key-Grows :
      (s : Json) (o : Option String) (c : Collected) → Grows c (collect_key py s o c)
  collect_key-Grows s none c k h = h
  collect_key-Grows s (some key) c k h = ground arith

  abbrev Seen : Collected → Json → Type 0
  Seen c s = (k : String) → content_key py s ≡ some k → has py k c.seen ≡ true

  collect_key-Seen : (s : Json) (c : Collected) → Seen (collect_key py s (content_key py s) c) s
  collect_key-Seen s c k h = rw h (ground (arith, eq_iff k k))

  -- Each step, and the loops.
  record Advances (ss : List Json) (c c' : Collected) : Type 0 where
    collected : IsCollected c → IsCollected c'
    grows : Grows c c'
    seen : All (Seen c') ss

  Seen-Grows : (c c' : Collected) (ss : List Json) → Grows c c' → All (Seen c) ss → All (Seen c') ss
  Seen-Grows c c' [] g h = tt
  Seen-Grows c c' (s ∷ ss) g h = (λ k e. g k (h.0 k e), Seen-Grows c c' ss g h.1)

  collect_from-Advances :
      (xs : Items) (c : Collected) → Advances (items xs) c (collect_from py xs c)
  unfolding collect_from
  collect_from-Advances nil c = record { collected = λ h. h; grows = λ k h. h; seen = tt }
  collect_from-Advances (cons s ss) c =
      let c' = collect_key py s (content_key py s) c in
      let rest = collect_from-Advances ss c' in
      record {
        collected = λ h. rest.collected (collect_key-IsCollected s (content_key py s) c refl h);
        grows = λ k h. rest.grows k (collect_key-Grows s (content_key py s) c k h);
        seen = (λ k e. rest.grows k (collect_key-Seen s c k e), rest.seen);
      }

  abbrev pub all_summaries : List Json → List Json
  all_summaries [] = []
  all_summaries (f ∷ facts) = items (summaries_in py f) ++ all_summaries facts

  collect_all-Advances :
      (facts : List Json) (c : Collected)
      → Advances (all_summaries facts) c (collect_all py facts c)
  unfolding collect_all
  collect_all-Advances [] c = record { collected = λ h. h; grows = λ k h. h; seen = tt }
  collect_all-Advances (f ∷ facts) c =
      let c' = collect_from py (summaries_in py f) c in
      let own = collect_from-Advances (summaries_in py f) c in
      let rest = collect_all-Advances facts c' in
      record {
        collected = λ h. rest.collected (own.collected h);
        grows = λ k h. rest.grows k (own.grows k h);
        seen =
            All-append (Seen (collect_all py facts c')) (items (summaries_in py f))
              (all_summaries facts)
              (Seen-Grows c' (collect_all py facts c') (items (summaries_in py f)) rest.grows
                own.seen)
              rest.seen;
      }

  covered :
      (c : Collected) (ss : List Json)
      → IsCollected c
      → All (Seen c) ss
      → All (IsCovered (keys_of c.summaries)) ss
  covered c [] inv h = tt
  covered c (s ∷ ss) inv h = (λ k e. ground (arith, inv.same k, h.0 k e), covered c ss inv h.1)

  nothing-IsCollected : IsCollected (record { summaries = []; seen = [] })
  nothing-IsCollected = record { same = λ k. refl; distinct = tt; keyed = tt }

-- The summaries that are collected have keys, no two have the same, and each summary in a fact that
-- has a key has its key among them.
pub collect_cloud_summaries_from_facts-keys :
    (py : Values) (facts : List Json)
    → let ss = collect_cloud_summaries_from_facts py facts in
      All (HasKey py) ss
      × IsDistinct py (keys_of py ss)
      × All (IsCovered py (keys_of py ss)) (all_summaries py facts)
unfolding collect_cloud_summaries_from_facts
collect_cloud_summaries_from_facts-keys py facts =
    let new : Collected = record { summaries = []; seen = [] } in
    let run = collect_all-Advances py facts new in
    let inv = run.collected (nothing-IsCollected py) in
    (
      inv.keyed,
      inv.distinct,
      covered py (collect_all py facts new) (all_summaries py facts) inv run.seen,
    )
