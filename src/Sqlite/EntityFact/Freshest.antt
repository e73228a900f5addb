-- ===== src/Sqlite/EntityFact/Freshest.antt =====
-- `get_embeddings` selects the freshest facts of the entity.
use memori.Prelude.{
  ℕ, zero, suc, ap, take, ◌++◌, ◌⊎◌, ◌==◌, ◌≤◌, ◌≡◌, refl, Bool, List, [], ◌∷◌, map, filter, length,
  arith, Bool-cases, inl, inr,
}
use memori.Prelude.Sort.{insert_sorted, sort, Ordered, IsWeakOrder, sort-Ordered, length-take_le}
use mathlib.Core.List.{Perm}
use mathlib.Core.List.Perm
use memori.Embeddings.{drop}
use memori.Exec.{ok}
use memori.Sql.{Row}
use memori.Schema.{Db, FactRow}
use memori.Conn.{Env, Conn}
use memori.Conn.Quiet.{IsQuiet, execute-quiet}
use memori.Sqlite.EntityFact.{fresher, of_entity, embedding_rows, get_embeddings, to_embedding}

fresher-IsWeakOrder : IsWeakOrder fresher
fresher-IsWeakOrder = record { asym = λ a b h. ground arith; neg_trans = λ a b c h k. ground arith }

module _ {A : Type 0} where
  take-rest : (n : ℕ) (l : List A) → take n l ++ drop n l ≡ l
  take-rest zero l = refl
  take-rest (suc n) [] = refl
  take-rest (suc n) (x ∷ l) = ap (◌∷◌ x) (take-rest n l)

  take-full : (n : ℕ) (l : List A) → (drop n l ≡ []) ⊎ (length (take n l) ≡ n)
  take-full zero l = inr refl
  take-full (suc n) [] = inl refl
  take-full (suc n) (x ∷ l) = elim (take-full n l) [ inl e ↦ inl e | inr e ↦ inr (ap suc e) ]

module _ {A : Type 0} (before : A → A → Bool) where
  insert_sorted-Perm : (x : A) (l : List A) → Perm (insert_sorted before x l) (x ∷ l)
  insert_sorted-Perm x [] = Perm.refl (x ∷ [])
  insert_sorted-Perm x (y ∷ l) = elim (Bool-cases (before y x)) [
    | inl e ↦ rw e (Perm.trans (Perm.cons y (insert_sorted-Perm x l)) (Perm.swap x y l))
    | inr e ↦ rw e (Perm.refl (x ∷ y ∷ l))
  ]

  sort-Perm : (l : List A) → Perm (sort before l) l
  unfolding sort
  sort-Perm [] = Perm.refl []
  sort-Perm (x ∷ l) = Perm.trans (insert_sorted-Perm x (sort before l)) (Perm.cons x (sort-Perm l))

-- What a selection of facts for the entity promises: with some rest, its rows are all rows of the
-- entity, put into an order in which none is fresher than one in front of it, and there is a rest
-- only if the selection has `limit` rows.
pub record Selected (entity_id limit : ℕ) (db : Db) (rows : List (Row FactRow)) : Type 0 where
  pub rest : List (Row FactRow)
  pub all :
      Perm
        (rows ++ rest)
        (filter (λ (row : Row FactRow). entity_id == row.1.entity_id) db.entity_fact.rows)
  pub ordered : Ordered fresher (rows ++ rest)
  pub bounded : length rows ≤ limit
  pub full : (rest ≡ []) ⊎ (length rows ≡ limit)

-- Where no statement fails, `get_embeddings` returns the ids and embeddings of the freshest `limit`
-- rows of the entity, the freshest first, or of all its rows if there are fewer. A row is fresher by
-- its last date, then by its count, then by its id.
pub get_embeddings-Selected :
    (env : Env) (entity_id limit : ℕ) (c : Conn)
    → IsQuiet env
    → (rows : List (Row FactRow)) × ((get_embeddings env entity_id limit c).0
        ≡ ok (map to_embedding rows))
      × Selected entity_id limit c.db rows
unfolding get_embeddings embedding_rows
get_embeddings-Selected env entity_id limit c quiet =
    let mine = filter (λ (row : Row FactRow). of_entity entity_id row.1) c.db.entity_fact.rows in
    let sorted = sort fresher mine in
    (
      embedding_rows entity_id limit c.db,
      rw
          (execute-quiet env quiet
            (λ _ db. (map to_embedding (embedding_rows entity_id limit db), db)) c)
          refl,
      record {
        rest = drop limit sorted;
        all = rw (take-rest limit sorted) (sort-Perm fresher mine);
        ordered = rw (take-rest limit sorted) (sort-Ordered fresher fresher-IsWeakOrder mine);
        bounded = length-take_le limit sorted;
        full = take-full limit sorted;
      },
    )
