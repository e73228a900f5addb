-- ===== src/Sqlite/EntityFact/Lookup.antt =====
-- `get_facts_by_ids` answers in the order of the ids that it is asked for.
use memori.Prelude.{
  ==_sound, ℕ, String, ◌≡◌, refl, ◌∙◌, ap, true, Option, none, some, List, [], ◌∷◌, map, filter,
  find?, arith, Bool-cases, inl, inr, ◌==◌, All, any-append, All-split,
}
use memori.Exec.{Result, ok}
use memori.Sql.{Row, Table, select_id}
use memori.Schema.{FactRow}
use memori.Conn.{Env, Conn}
use memori.Conn.Quiet.{IsQuiet, execute-quiet}
use memori.Sqlite.EntityFact.{
  FactInfo, Summary, is_in, to_info, add_summary, add_summaries, if_found, in_order, facts_in,
  summary_rows, with_summaries, get_facts_by_ids,
}

-- What is said of a fact but its summaries.
abbrev View : Type 0
View = ℕ × String × ℕ

abbrev pub view : FactInfo → View
view f = (f.id, f.content, f.date_created)

abbrev map_view : Option FactInfo → Option View
map_view none = none
map_view (some f) = some (view f)

abbrev row_view : Option (Row FactRow) → Option View
row_view none = none
row_view (some (i, r)) = some (i, r.content, r.date_created)

abbrev add : Option View → List View → List View
add none vs = vs
add (some v) vs = v ∷ vs

-- The rows of the ids, one by one; an id without a row is passed over.
abbrev pub rows_of : List ℕ → Table FactRow → List View
rows_of [] t = []
rows_of (i ∷ ids) t = add (row_view (select_id i t)) (rows_of ids t)

abbrev with_id : ℕ → List FactInfo → Option View
with_id i facts = map_view (find? (λ (f : FactInfo). f.id == i) facts)

with_id-add_summary :
    (i k : ℕ) (s : Summary) (facts : List FactInfo)
    → with_id i (add_summary k s facts) ≡ with_id i facts
with_id-add_summary i k s [] = refl
with_id-add_summary i k s (f ∷ facts) = ground (arith, with_id-add_summary i k s facts)

with_id-add_summaries :
    (i : ℕ) (rows : List (ℕ × Summary)) (facts : List FactInfo)
    → with_id i (add_summaries rows facts) ≡ with_id i facts
unfolding add_summaries
with_id-add_summaries i [] facts = refl
with_id-add_summaries i ((k, s) ∷ rows) facts =
    with_id-add_summaries i rows (add_summary k s facts) ∙ with_id-add_summary i k s facts

with_id-facts_in :
    (i : ℕ) (ids : List ℕ) (rows : List (Row FactRow))
    → is_in ids i ≡ true
    → with_id i (map to_info (filter (λ (row : Row FactRow). is_in ids row.0) rows))
      ≡ row_view (find? (λ (row : Row FactRow). row.0 == i) rows)
with_id-facts_in i ids [] h = refl
with_id-facts_in i ids ((j, r) ∷ rows) h = elim (Bool-cases (is_in ids j)) [
  | inl e ↦ rw e (ground (arith, with_id-facts_in i ids rows h))
  | inr e ↦ rw e (elim (Bool-cases (j == i)) [
    | inl same ↦ cc (h, e, ap (is_in ids) (==_sound j i same))
    | inr other ↦ rw other (with_id-facts_in i ids rows h)
  ])
]

map_view-if_found :
    (o : Option FactInfo) (facts : List FactInfo)
    → map view (if_found o facts) ≡ add (map_view o) (map view facts)
map_view-if_found none facts = refl
map_view-if_found (some f) facts = refl

map-view-in_order :
    (ids : List ℕ) (facts : List FactInfo) (t : Table FactRow)
    → All (λ i. with_id i facts ≡ row_view (select_id i t)) ids
    → map view (in_order ids facts) ≡ rows_of ids t
unfolding in_order
map-view-in_order [] facts t h = refl
map-view-in_order (i ∷ ids) facts t h =
    rw
      (
        map_view-if_found (find? (λ (f : FactInfo). f.id == i) facts) (in_order ids facts),
        h.0,
        map-view-in_order ids facts t h.1,
      )
      refl

-- Each id of the list is in the list.
All-is_in : {P : ℕ → Type 0} (ids : List ℕ) → ((i : ℕ) → is_in ids i ≡ true → P i) → All P ids
All-is_in ids h = All-split [] ids (λ front i back split.
    h i (rw (← split) (ground (arith, any-append (λ (k : ℕ). k == i) front (i ∷ back)))))

rows_of-none :
    (ids : List ℕ) (t : Table FactRow)
    → All (λ i. none ≡ row_view (select_id i t)) ids
    → [] ≡ rows_of ids t
rows_of-none [] t h = refl
rows_of-none (i ∷ ids) t h = rw (← h.0) (rows_of-none ids t h.1)

All-summaries :
    (rows : List (ℕ × Summary)) (ids : List ℕ) (facts : List FactInfo) (t : Table FactRow)
    → All (λ i. with_id i facts ≡ row_view (select_id i t)) ids
    → All (λ i. with_id i (add_summaries rows facts) ≡ row_view (select_id i t)) ids
All-summaries rows [] facts t h = tt
All-summaries rows (i ∷ ids) facts t h =
    (with_id-add_summaries i rows facts ∙ h.0, All-summaries rows ids facts t h.1)

-- The result is a list of facts whose views are the rows of the ids.
abbrev pub Answers : Result (List FactInfo) → List ℕ → Table FactRow → Type 0
Answers r ids t = (facts : List FactInfo) × (r ≡ ok facts) × (map view facts ≡ rows_of ids t)

with_summaries-view :
    (env : Env) (ids : List ℕ) (facts : List FactInfo) (c : Conn) (t : Table FactRow)
    → IsQuiet env
    → All (λ i. with_id i facts ≡ row_view (select_id i t)) ids
    → Answers (with_summaries env ids facts c).0 ids t
unfolding with_summaries
with_summaries-view env ids [] c t quiet h = ([], refl, rows_of-none ids t h)
with_summaries-view env ids (f ∷ fs) c t quiet h =
    let found = summary_rows ids c.db c.db.entity_fact_mention.rows in
    (
      in_order ids (add_summaries found (f ∷ fs)),
      rw (execute-quiet env quiet (λ _ db. (summary_rows ids db db.entity_fact_mention.rows, db)) c)
          refl,
      map-view-in_order ids (add_summaries found (f ∷ fs)) t (All-summaries found ids (f ∷ fs) t h),
    )

-- Where no statement fails, `get_facts_by_ids` returns, for any list of ids, the ids, contents and
-- dates of the rows that have them: in the order of the list, as often as the list has them, and
-- leaving out exactly the ids that no row has. The attached summaries change none of it.
pub get_facts_by_ids_order :
    (env : Env) (ids : List ℕ) (c : Conn)
    → IsQuiet env
    → Answers (get_facts_by_ids env ids c).0 ids c.db.entity_fact
unfolding get_facts_by_ids
get_facts_by_ids_order env [] c quiet = ([], refl, refl)
get_facts_by_ids_order env (i ∷ ids) c quiet =
    rw (execute-quiet env quiet (λ _ db. (facts_in (i ∷ ids) db, db)) c) (
      with_summaries-view env (i ∷ ids) (facts_in (i ∷ ids) c.db) _ c.db.entity_fact quiet
        (All-is_in (i ∷ ids) (λ k m. with_id-facts_in k (i ∷ ids) c.db.entity_fact.rows m)))
