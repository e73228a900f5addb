-- ===== src/CloudRecall/Attached.antt =====
-- The summaries of an answer that are attached to its facts leave facts.
use memori.Prelude.{
  ◌≡◌, refl, true, false, Option, none, some, List, [], ◌∷◌, All, arith, Bool-cases, inl, inr,
}
use memori.Exec.{Result, ok, err}
use memori.Json.{
  Json, null, boolean, number, text, array, object, Items, nil, cons, Fields, items, get, put,
}
use memori.Utils.Merge.Keys.{get-put}
use memori.CloudRecall.{
  Values, list_of, not_null, is_hashable, and_group, attach_matched, and_fact, attach_if_any,
  attach_some, collect_cloud_summary_items, clean_summaries, collect_items, append_item, add_to,
  add_summary, id_of, group_summaries, matched, matched_by, extend_items, existing, put_summaries,
  attach_to, attach_groups, attach_top_level_summaries_to_facts,
}

abbrev pub IsDict : Json → Type 0
IsDict (object d) = Unit
IsDict v = true ≡ false

abbrev pub AreDicts : Option Items → Type 0
AreDicts none = Unit
AreDicts (some xs) = All IsDict (items xs)

-- A text, or a dict whose `summaries`, if they are a list, are dicts.
abbrev pub IsFact : Json → Type 0
IsFact (text s) = Unit
IsFact (object d) = AreDicts (list_of (get "summaries" d))
IsFact v = true ≡ false

collected-AreDicts : (xs : Items) → All IsDict (items (collect_cloud_summary_items xs))
unfolding collect_cloud_summary_items
collected-AreDicts nil = tt
collected-AreDicts (cons (object d) xs) = (tt, collected-AreDicts xs)
collected-AreDicts (cons null xs) = collected-AreDicts xs
collected-AreDicts (cons (boolean b) xs) = collected-AreDicts xs
collected-AreDicts (cons (number n) xs) = collected-AreDicts xs
collected-AreDicts (cons (text s) xs) = collected-AreDicts xs
collected-AreDicts (cons (array ys) xs) = collected-AreDicts xs

get-summaries : (v : Json) (d : Fields) → get "summaries" (put "summaries" v d) ≡ some v
get-summaries v d = ground (arith, get-put "summaries" "summaries" v d)

clean-IsFact :
    (d : Fields) (o : Option Items)
    → list_of (get "summaries" d) ≡ o
    → IsFact (object (clean_summaries d o))
clean-IsFact d none h = rw h tt
clean-IsFact d (some xs) h =
    rw (get-summaries (array (collect_cloud_summary_items xs)) d) (collected-AreDicts xs)

abbrev pub AreFacts : List Json → Type 0
AreFacts facts = All IsFact facts

pub collect_items-AreFacts : (xs : Items) → AreFacts (collect_items xs)
unfolding collect_items
collect_items-AreFacts nil = tt
collect_items-AreFacts (cons (text s) xs) = (tt, collect_items-AreFacts xs)
collect_items-AreFacts (cons (object d) xs) =
    (clean-IsFact d (list_of (get "summaries" d)) refl, collect_items-AreFacts xs)
collect_items-AreFacts (cons null xs) = collect_items-AreFacts xs
collect_items-AreFacts (cons (boolean b) xs) = collect_items-AreFacts xs
collect_items-AreFacts (cons (number n) xs) = collect_items-AreFacts xs
collect_items-AreFacts (cons (array ys) xs) = collect_items-AreFacts xs

extend-AreDicts :
    (py : Values) (xs ys : Items)
    → All IsDict (items xs)
    → All IsDict (items ys)
    → All IsDict (items (extend_items py xs ys))
extend-AreDicts py nil ys hx hy = hy
extend-AreDicts py (cons x xs) ys hx hy = (hx.0, extend-AreDicts py xs ys hx.1 hy)

append-AreDicts :
    (xs : Items) (v : Json)
    → All IsDict (items xs)
    → IsDict v
    → All IsDict (items (append_item xs v))
append-AreDicts nil v hx hv = (hv, tt)
append-AreDicts (cons x xs) v hx hv = (hx.0, append-AreDicts xs v hx.1 hv)

abbrev AreGroups : List (Json × Items) → Type 0
AreGroups groups = All (λ (g : Json × Items). All IsDict (items g.1)) groups

abbrev GroupsResult : Result (List (Json × Items)) → Type 0
GroupsResult (ok groups) = AreGroups groups
GroupsResult (err e) = Unit

module _ (py : Values) where
  add_to-AreGroups :
      (key summary : Json) (groups : List (Json × Items))
      → IsDict summary
      → AreGroups groups
      → AreGroups (add_to py key summary groups)
  add_to-AreGroups key summary [] h g = ((h, tt), tt)
  add_to-AreGroups key summary ((k, xs) ∷ groups) h g = elim (Bool-cases (py.same_key k key)) [
    | inl e ↦ rw e (append-AreDicts xs summary g.0 h, g.1)
    | inr e ↦ rw e (g.0, add_to-AreGroups key summary groups h g.1)
  ]

  add_summary-AreGroups :
      (s : Json) (o : Option Json) (groups : List (Json × Items))
      → IsDict s
      → AreGroups groups
      → GroupsResult (add_summary py s o groups)
  add_summary-AreGroups s none groups h g = g
  add_summary-AreGroups s (some key) groups h g = elim (Bool-cases (is_hashable key)) [
    | inl e ↦ rw e (add_to-AreGroups key s groups h g)
    | inr e ↦ rw e tt
  ]

  group_summaries-AreGroups :
      (ss : Items) (groups : List (Json × Items))
      → All IsDict (items ss)
      → AreGroups groups
      → GroupsResult (group_summaries py ss groups)
  unfolding group_summaries
  group_summaries-AreGroups nil groups h g = g
  group_summaries-AreGroups (cons s ss) groups h g =
      go (add_summary py s (id_of py s) groups) (add_summary-AreGroups s (id_of py s) groups h.0 g)
        (λ groups' g'. group_summaries-AreGroups ss groups' h.1 g')
    where
      go :
          (r : Result (List (Json × Items)))
          → GroupsResult r
          → ((groups' : List (Json × Items))
              → AreGroups groups'
              → GroupsResult (group_summaries py ss groups'))
          → GroupsResult (and_group py r (group_summaries py ss))
      go (ok groups') g' rest = rest groups' g'
      go (err e) g' rest = tt

  matched-AreDicts :
      (key : Json) (groups : List (Json × Items))
      → AreGroups groups
      → All IsDict (items (matched py key groups))
  matched-AreDicts key [] g = tt
  matched-AreDicts key ((k, xs) ∷ groups) g = elim (Bool-cases (py.same_key k key)) [
    | inl e ↦ rw e g.0
    | inr e ↦ rw e (matched-AreDicts key groups g.1)
  ]

  existing-AreDicts : (o : Option Items) → All IsDict (items (existing py o))
  existing-AreDicts none = tt
  existing-AreDicts (some xs) = collected-AreDicts xs

  put_summaries-IsFact :
      (d : Fields) (xs : Items)
      → IsFact (object d)
      → All IsDict (items xs)
      → IsFact (object (put_summaries py d xs))
  put_summaries-IsFact d nil f h = f
  put_summaries-IsFact d (cons x xs) f h = rw (get-summaries (array (cons x xs)) d) h

  abbrev FactResult : Result Json → Type 0
  FactResult (ok f) = IsFact f
  FactResult (err e) = Unit

  abbrev DictsResult : Result Items → Type 0
  DictsResult (ok xs) = All IsDict (items xs)
  DictsResult (err e) = Unit

  matched_by-AreDicts :
      (o : Option Json) (groups : List (Json × Items))
      → AreGroups groups
      → DictsResult (matched_by py o groups)
  matched_by-AreDicts none groups g = tt
  matched_by-AreDicts (some key) groups g = elim (Bool-cases (is_hashable key)) [
    | inl e ↦ rw e (matched-AreDicts key groups g)
    | inr e ↦ rw e tt
  ]

  attach_matched-IsFact :
      (d : Fields) (r : Result Items)
      → IsFact (object d)
      → DictsResult r
      → FactResult (attach_matched py d r)
  attach_matched-IsFact d (ok ms) f h =
      let old = existing py (list_of (get "summaries" d)) in
      put_summaries-IsFact d (extend_items py old ms) f
        (extend-AreDicts py old ms (existing-AreDicts (list_of (get "summaries" d))) h)
  attach_matched-IsFact d (err e) f h = tt

  attach_to-IsFact :
      (groups : List (Json × Items)) (f : Json)
      → AreGroups groups
      → IsFact f
      → FactResult (attach_to py groups f)
  attach_to-IsFact groups (object d) g h =
      attach_matched-IsFact d _ h (matched_by-AreDicts (not_null (get "id" d)) groups g)
  attach_to-IsFact groups (text s) g h = tt
  attach_to-IsFact groups null g h = h
  attach_to-IsFact groups (boolean b) g h = h
  attach_to-IsFact groups (number n) g h = h
  attach_to-IsFact groups (array xs) g h = h

  abbrev pub FactsResult : Result (List Json) → Type 0
  FactsResult (ok facts) = AreFacts facts
  FactsResult (err e) = Unit

  and_fact-AreFacts :
      (r : Result Json) (rs : Result (List Json))
      → FactResult r
      → FactsResult rs
      → FactsResult (and_fact py r rs)
  and_fact-AreFacts (ok f) (ok facts) h k = (h, k)
  and_fact-AreFacts (ok f) (err e) h k = tt
  and_fact-AreFacts (err e) rs h k = tt

  attach_groups-AreFacts :
      (groups : List (Json × Items)) (facts : List Json)
      → AreGroups groups
      → AreFacts facts
      → FactsResult (attach_groups py groups facts)
  unfolding attach_groups
  attach_groups-AreFacts groups [] g h = tt
  attach_groups-AreFacts groups (f ∷ facts) g h =
      and_fact-AreFacts (attach_to py groups f) (attach_groups py groups facts)
        (attach_to-IsFact groups f g h.0) (attach_groups-AreFacts groups facts g h.1)

  attach_if_any-AreFacts :
      (facts : List Json) (r : Result (List (Json × Items)))
      → AreFacts facts
      → GroupsResult r
      → FactsResult (attach_if_any py facts r)
  attach_if_any-AreFacts facts (err e) h g = tt
  attach_if_any-AreFacts facts (ok []) h g = h
  attach_if_any-AreFacts facts (ok (x ∷ groups)) h g = attach_groups-AreFacts (x ∷ groups) facts g h

  pub attach_some-AreFacts :
      (facts : List Json) (o : Option Items) → AreFacts facts → FactsResult (attach_some py facts o)
  unfolding attach_top_level_summaries_to_facts
  attach_some-AreFacts facts none h = h
  attach_some-AreFacts facts (some xs) h =
      attach_if_any-AreFacts facts _ h
        (group_summaries-AreGroups (collect_cloud_summary_items xs) [] (collected-AreDicts xs) tt)
