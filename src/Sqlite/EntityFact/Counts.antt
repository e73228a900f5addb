-- ===== src/Sqlite/EntityFact/Counts.antt =====
-- `num_times` counts how often a fact was stored for an entity.
use memori.Prelude.{
  ℕ, suc, ◌+◌, String, ◌≡◌, refl, true, false, Option, none, some, List, [], ◌∷◌, ◌&&◌, map, any,
  find?, arith, Bool-cases, inl, inr, find?-append, ◌==◌, str_eq, eq_iff, ap, if◌then◌else◌,
}
use memori.Exec.{ok}
use memori.Sql.{id_of, Row, Table, upsert, insert, change, columns, select_one}
use memori.Schema.{Db, FactRow}
use memori.Conn.{Env, Conn, Stamp, stamp}
use memori.Conn.Quiet.{IsQuiet, execute-quiet, commit-quiet}
use memori.Utils.{generate_uniq, normal_form}
use memori.Sqlite.EntityFact.{
  keyed, seen_again, upsert_fact, insert_mention, mention_found, create_mention, create_fact,
  create_facts, create, embedding_at,
}

abbrev num_times_of : Option (Row FactRow) → ℕ
num_times_of none = 0
num_times_of (some (_, r)) = r.num_times

-- How often the fact of a key has been stored for an entity: 0 if there is no row.
abbrev pub times : ℕ → String → Db → ℕ
times entity_id uniq db = num_times_of (select_one (keyed entity_id uniq) db.entity_fact)

-- The key of a fact's text.
abbrev pub key_of : Env → String → String
key_of env fact = env.sha256 (normal_form env (fact ∷ []))

abbrev hit : ℕ → String → ℕ → String → ℕ
hit e u e' u' = if e == e' && str_eq u u' then 1 else 0

-- How many of the facts have the key, for the entity `e` that they are stored for.
abbrev pub hits : Env → ℕ → String → ℕ → List String → ℕ
hits env e u e' [] = 0
hits env e u e' (fact ∷ facts) = hit e u e' (key_of env fact) + hits env e u e' facts

find-change :
    (e e' : ℕ) (u u' : String) (now : ℕ) (rows : List (Row FactRow))
    → num_times_of (find? (columns (keyed e u)) (map (change (keyed e' u') (seen_again now)) rows))
      ≡ num_times_of (find? (columns (keyed e u)) rows)
        + (if any (columns (keyed e u)) rows then hit e u e' u' else 0)
find-change e e' u u' now [] = refl
find-change e e' u u' now ((i, r) ∷ rows) = elim (Bool-cases (keyed e' u' r)) [
  | inl this ↦ rw this (
      ground (
        arith,
        this,
        find-change e e' u u' now rows,
        eq_iff u r.uniq,
        eq_iff u' r.uniq,
        eq_iff u u',
      ))
  | inr other ↦ rw other (
      ground (
        arith,
        other,
        find-change e e' u u' now rows,
        eq_iff u r.uniq,
        eq_iff u' r.uniq,
        eq_iff u u',
      ))
]

find-none :
    (e : ℕ) (u : String) (rows : List (Row FactRow))
    → any (columns (keyed e u)) rows ≡ false
    → find? (columns (keyed e u)) rows ≡ none
find-none e u [] h = refl
find-none e u (x ∷ rows) h = ground (arith, find-none e u rows)

any-same :
    (e e' : ℕ) (u u' : String) (rows : List (Row FactRow))
    → (e == e' && str_eq u u') ≡ true
    → any (columns (keyed e u)) rows ≡ any (columns (keyed e' u')) rows
any-same e e' u u' [] h = refl
any-same e e' u u' ((i, r) ∷ rows) h =
    ground (arith, any-same e e' u u' rows, eq_iff u u', eq_iff u r.uniq, eq_iff u' r.uniq)

times-upsert_fact :
    (e e' : ℕ) (u u' : String) (fact : String) (embedding : List ℕ) (s : Stamp) (db : Db)
    → times e u (upsert_fact e' fact embedding u' s db) ≡ times e u db + hit e u e' u'
unfolding upsert_fact upsert insert
times-upsert_fact e e' u u' fact embedding s db =
    elim (Bool-cases (any (columns (keyed e' u')) db.entity_fact.rows)) [
      | inl there ↦ rw there (
          rw (find-change e e' u u' s.now db.entity_fact.rows)
            (ground (arith, there, any-same e e' u u' db.entity_fact.rows)))
      | inr new ↦ rw new (
          rw (find?-append (columns (keyed e u)) db.entity_fact.rows _) (
            ground (
              arith,
              new,
              any-same e e' u u' db.entity_fact.rows,
              find-none e u db.entity_fact.rows,
            )))
    ]

module _ (env : Env) (quiet : IsQuiet env) where
  -- A mention leaves the facts alone.
  mention_found-quiet :
      (e c : ℕ) (found : Option ℕ) (conn : Conn)
      → ((mention_found env e c found conn).0 ≡ ok tt)
        × ((mention_found env e c found conn).1.db.entity_fact ≡ conn.db.entity_fact)
  unfolding mention_found insert_mention
  mention_found-quiet e c none conn = (refl, refl)
  mention_found-quiet e c (some i) conn =
      rw (execute-quiet env quiet (λ s db. (tt, insert_mention e i c s db)) conn) (refl, refl)

  create_mention-quiet :
      (e : ℕ) (c : Option ℕ) (uniq : String) (conn : Conn)
      → ((create_mention env e c uniq conn).0 ≡ ok tt)
        × ((create_mention env e c uniq conn).1.db.entity_fact ≡ conn.db.entity_fact)
  unfolding create_mention
  create_mention-quiet e none uniq conn = (refl, refl)
  create_mention-quiet e (some c) uniq conn =
      rw
        (execute-quiet env quiet (λ _ db. (id_of (select_one (keyed e uniq) db.entity_fact), db))
          conn)
        (mention_found-quiet e c _ (record conn { step = suc conn.step }))

  create_fact-quiet :
      (e : ℕ) (es : Option (List (List ℕ))) (c : Option ℕ) (i : ℕ) (fact : String) (conn : Conn)
      → ((create_fact env e es c i fact conn).0 ≡ ok tt)
        × ((create_fact env e es c i fact conn).1.db.entity_fact
            ≡ (upsert_fact e fact
                (env.pack (embedding_at es i))
                (key_of env fact)
                (stamp env conn.step)
                conn.db).entity_fact)
  unfolding create_fact generate_uniq
  create_fact-quiet e es c i fact conn =
      rw
        (execute-quiet env quiet
          (λ s db. (tt, upsert_fact e fact (env.pack (embedding_at es i)) (key_of env fact) s db))
          conn)
        (create_mention-quiet e c (key_of env fact) _)

  create_facts-quiet :
      (e : ℕ) (es : Option (List (List ℕ))) (c : Option ℕ) (i : ℕ) (facts : List String)
      (conn : Conn)
      → ((create_facts env e es c i facts conn).0 ≡ ok tt)
        × ((e' : ℕ) (u : String)
            → times e' u (create_facts env e es c i facts conn).1.db
              ≡ times e' u conn.db + hits env e' u e facts)
  unfolding create_facts
  create_facts-quiet e es c i [] conn = (refl, λ e' u. omega arith)
  create_facts-quiet e es c i (fact ∷ facts) conn =
      let first = create_fact-quiet e es c i fact conn in
      let rest = create_facts-quiet e es c (suc i) facts (create_fact env e es c i fact conn).1 in
      rw first.0 (
        rest.0,
        λ e' u. omega (
          arith,
          rest.1 e' u,
          ap (λ (t : Table FactRow). num_times_of (select_one (keyed e' u) t)) first.1,
          times-upsert_fact e' e u (key_of env fact) fact (env.pack (embedding_at es i))
              (stamp env conn.step) conn.db,
        ),
      )

-- Where no statement fails, `EntityFact.create` on a list of facts returns, has committed what it
-- wrote, and has raised the stored count of every key of every entity by exactly the number of the
-- facts that have that key, if it is the entity that they were stored for, and by nothing else.
pub create_counts :
    (env : Env) (e : ℕ) (fact : String) (facts : List String) (es : Option (List (List ℕ)))
    (c : Option ℕ) (conn : Conn)
    → IsQuiet env
    → let (r, conn') = create env e (some (fact ∷ facts)) es c conn in
      (r ≡ ok tt)
      × (conn'.committed ≡ conn'.db)
      × ((e' : ℕ) (u : String)
          → times e' u conn'.committed ≡ times e' u conn.db + hits env e' u e (fact ∷ facts))
unfolding create
create_counts env e fact facts es c conn quiet =
    let stored = create_facts-quiet env quiet e es c 0 (fact ∷ facts) conn in
    let conn' = (create_facts env e es c 0 (fact ∷ facts) conn).1 in
    rw (stored.0, commit-quiet env quiet conn') (refl, refl, stored.1)
