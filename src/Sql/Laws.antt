-- ===== src/Sql/Laws.antt =====
-- What the statements keep of a table: ids that ascend and have all been handed out, and rows
-- that a uniqueness constraint tells apart; and what a SELECT finds after an INSERT.
use memori.Prelude.{
  ℕ, suc, ◌+◌, ◌≤◌, ◌<◌, ◌≡◌, refl, ◌∙◌, Bool, true, false, Option, none, some, List, [], ◌∷◌, ◌++◌,
  map, any, filter, find?, not, All, arith, Bool-cases, inl, inr, any-append, find?-append,
}
use memori.Sql.{
  Row, Table, columns, insert, insert_or_ignore, change, change_id, update_id, upsert, delete,
  select_one,
}

module _ {R : Type 0} where
  abbrev pub Below : ℕ → List (Row R) → Type 0
  Below n = All (λ (row : Row R). row.0 < n)

  abbrev pub Above : ℕ → List (Row R) → Type 0
  Above n = All (λ (row : Row R). n < row.0)

  abbrev pub Ascending : List (Row R) → Type 0
  Ascending [] = Unit
  Ascending (x ∷ xs) = Above x.0 xs × Ascending xs

  -- No two rows that `same` takes for one.
  abbrev pub Unique : (R → R → Bool) → List (Row R) → Type 0
  Unique same [] = Unit
  Unique same (x ∷ xs) = (any (columns (same x.1)) xs ≡ false) × Unique same xs

pub record IsSound {R : Type 0} (same : R → R → Bool) (t : Table R) : Type 0 where
  pub below : Below t.next_id t.rows
  pub ascending : Ascending t.rows
  pub unique : Unique same t.rows

module _ {R : Type 0} where
  pub Below-mono : (n m : ℕ) (rows : List (Row R)) → n ≤ m → Below n rows → Below m rows
  Below-mono n m [] h b = tt
  Below-mono n m (x ∷ rows) h b = (omega arith, Below-mono n m rows h b.1)

  Below-append :
      (n : ℕ) (rows : List (Row R)) (x : Row R) → Below n rows → x.0 < n → Below n (rows ++ x ∷ [])
  Below-append n [] x b h = (h, tt)
  Below-append n (y ∷ rows) x b h = (b.0, Below-append n rows x b.1 h)

  Above-append :
      (n : ℕ) (rows : List (Row R)) (x : Row R) → Above n rows → n < x.0 → Above n (rows ++ x ∷ [])
  Above-append n [] x b h = (h, tt)
  Above-append n (y ∷ rows) x b h = (b.0, Above-append n rows x b.1 h)

  Ascending-append :
      (rows : List (Row R)) (x : Row R)
      → Below x.0 rows
      → Ascending rows
      → Ascending (rows ++ x ∷ [])
  Ascending-append [] x b a = (tt, tt)
  Ascending-append (y ∷ rows) x b a =
      (Above-append y.0 rows x a.0 b.0, Ascending-append rows x b.1 a.1)

  Above-filter :
      (n : ℕ) (p : Row R → Bool) (rows : List (Row R)) → Above n rows → Above n (filter p rows)
  Above-filter n p [] a = tt
  Above-filter n p (x ∷ rows) a = ground (arith, Above-filter n p rows a.1)

  Below-filter :
      (n : ℕ) (p : Row R → Bool) (rows : List (Row R)) → Below n rows → Below n (filter p rows)
  Below-filter n p [] a = tt
  Below-filter n p (x ∷ rows) a = ground (arith, Below-filter n p rows a.1)

  Ascending-filter :
      (p : Row R → Bool) (rows : List (Row R)) → Ascending rows → Ascending (filter p rows)
  Ascending-filter p [] a = tt
  Ascending-filter p (x ∷ rows) a =
      ground (arith, Ascending-filter p rows a.1, Above-filter x.0 p rows a.0)

  any-filter :
      (q : Row R → Bool) (p : Row R → Bool) (rows : List (Row R))
      → any q rows ≡ false
      → any q (filter p rows) ≡ false
  any-filter q p [] h = refl
  any-filter q p (x ∷ rows) h = ground (arith, any-filter q p rows)

-- A change of the rows that leaves ids and keys alone.
module _ {R : Type 0} (g : Row R → Row R) (keeps : (row : Row R) → (g row).0 ≡ row.0) where
  Below-map : (n : ℕ) (rows : List (Row R)) → Below n rows → Below n (map g rows)
  Below-map n [] b = tt
  Below-map n (x ∷ rows) b = (omega (arith, keeps x), Below-map n rows b.1)

  Above-map : (n m : ℕ) (rows : List (Row R)) → n ≡ m → Above n rows → Above m (map g rows)
  Above-map n m [] e b = tt
  Above-map n m (x ∷ rows) e b = (omega (arith, keeps x), Above-map n m rows e b.1)

  Ascending-map : (rows : List (Row R)) → Ascending rows → Ascending (map g rows)
  Ascending-map [] a = tt
  Ascending-map (x ∷ rows) a =
      (Above-map x.0 (g x).0 rows (omega (arith, keeps x)) a.0, Ascending-map rows a.1)

module _ {R : Type 0} (same : R → R → Bool) (g : Row R → Row R)
    (right : (r : R) (row : Row R) → same r (g row).1 ≡ same r row.1)
    (left : (r : R) (row : Row R) → same (g row).1 r ≡ same row.1 r) where
  any-map :
      (x : Row R) (rows : List (Row R))
      → any (columns (same (g x).1)) (map g rows) ≡ any (columns (same x.1)) rows
  any-map x [] = refl
  any-map x (y ∷ rows) = ground (arith, any-map x rows, right (g x).1 y, left y.1 x)

  Unique-map : (rows : List (Row R)) → Unique same rows → Unique same (map g rows)
  Unique-map [] u = tt
  Unique-map (x ∷ rows) u = (any-map x rows ∙ u.0, Unique-map rows u.1)

module _ {R : Type 0} (same : R → R → Bool) where
  Unique-append :
      ((a b : R) → same a b ≡ same b a)
      → (rows : List (Row R)) (x : Row R) → any (columns (same x.1)) rows ≡ false
      → Unique same rows
      → Unique same (rows ++ x ∷ [])
  Unique-append comm [] x h u = (refl, tt)
  Unique-append comm (y ∷ rows) x h u = (
    ground (arith, any-append (columns (same y.1)) rows (x ∷ []), comm y.1 x.1),
    Unique-append comm rows x (ground arith) u.1,
  )

  Unique-filter :
      (p : Row R → Bool) (rows : List (Row R)) → Unique same rows → Unique same (filter p rows)
  Unique-filter p [] u = tt
  Unique-filter p (x ∷ rows) u =
      ground (arith, Unique-filter p rows u.1, any-filter (columns (same x.1)) p rows u.0)

  pub insert-IsSound :
      ((a b : R) → same a b ≡ same b a)
      → (r : R) (t : Table R) → any (columns (same r)) t.rows ≡ false
      → IsSound same t
      → IsSound same (insert r t)
  unfolding insert
  insert-IsSound comm r t h s = record {
    below =
        Below-append (suc t.next_id) t.rows (t.next_id, r)
          (Below-mono t.next_id (suc t.next_id) t.rows (omega arith) s.below) (omega arith);
    ascending = Ascending-append t.rows (t.next_id, r) s.below s.ascending;
    unique = Unique-append comm t.rows (t.next_id, r) h s.unique;
  }

  pub skip_ids-IsSound :
      (gap : ℕ) (t : Table R)
      → IsSound same t
      → IsSound same (record t { next_id = t.next_id + gap })
  skip_ids-IsSound gap t s = record {
    below = Below-mono t.next_id (t.next_id + gap) t.rows (omega arith) s.below;
    ascending = s.ascending;
    unique = s.unique;
  }

  pub insert_or_ignore-IsSound :
      ((a b : R) → same a b ≡ same b a)
      → (gap : ℕ) (r : R) (t : Table R) → IsSound same t
      → IsSound same (insert_or_ignore (same r) gap r t)
  unfolding insert_or_ignore
  insert_or_ignore-IsSound comm gap r t s = elim (Bool-cases (any (columns (same r)) t.rows)) [
    | inl taken ↦ rw taken (skip_ids-IsSound gap t s)
    | inr new ↦ rw new (insert-IsSound comm r t new s)
  ]

  -- A change of the columns that the constraint does not read.
  pub record Spares (f : R → R) : Type 0 where
    pub right : (a b : R) → same a (f b) ≡ same a b
    pub left : (a b : R) → same (f a) b ≡ same a b

  map-IsSound :
      (g : Row R → Row R)
      → ((row : Row R) → (g row).0 ≡ row.0)
      → ((r : R) (row : Row R) → same r (g row).1 ≡ same r row.1)
      → ((r : R) (row : Row R) → same (g row).1 r ≡ same row.1 r)
      → (t : Table R) → IsSound same t
      → IsSound same (record t { rows = map g t.rows })
  map-IsSound g keeps right left t s = record {
    below = Below-map g keeps t.next_id t.rows s.below;
    ascending = Ascending-map g keeps t.rows s.ascending;
    unique = Unique-map same g right left t.rows s.unique;
  }

  change-IsSound :
      (p : R → Bool) (f : R → R) (t : Table R)
      → Spares f
      → IsSound same t
      → IsSound same (record t { rows = map (change p f) t.rows })
  change-IsSound p f t v s =
      map-IsSound (change p f) (λ row. refl) (λ r row. ground (arith, v.right r row.1))
        (λ r row. ground (arith, v.left row.1 r)) t s

  pub update_id-IsSound :
      (k : ℕ) (f : R → R) (t : Table R) → Spares f → IsSound same t → IsSound same (update_id k f t)
  unfolding update_id
  update_id-IsSound k f t v s =
      map-IsSound (change_id k f) (λ row. refl) (λ r row. ground (arith, v.right r row.1))
        (λ r row. ground (arith, v.left row.1 r)) t s

  pub upsert-IsSound :
      ((a b : R) → same a b ≡ same b a)
      → (f : R → R) (gap : ℕ) (r : R) (t : Table R) → Spares f
      → IsSound same t
      → IsSound same (upsert (same r) f gap r t)
  unfolding upsert
  upsert-IsSound comm f gap r t v s = elim (Bool-cases (any (columns (same r)) t.rows)) [
    | inl taken ↦ rw taken (
        skip_ids-IsSound gap (record t { rows = map (change (same r) f) t.rows })
          (change-IsSound (same r) f t v s))
    | inr new ↦ rw new (insert-IsSound comm r t new s)
  ]

  pub delete-IsSound : (p : Row R → Bool) (t : Table R) → IsSound same t → IsSound same (delete p t)
  unfolding delete
  delete-IsSound p t s = record {
    below = Below-filter t.next_id (λ row. not (p row)) t.rows s.below;
    ascending = Ascending-filter (λ row. not (p row)) t.rows s.ascending;
    unique = Unique-filter (λ row. not (p row)) t.rows s.unique;
  }

module _ {R : Type 0} where
  abbrev pub or_new : Option (Row R) → Row R → Option (Row R)
  or_new none x = some x
  or_new (some y) x = some y

  pub find?-any :
      (p : Row R → Bool) (rows : List (Row R)) → any p rows ≡ false → find? p rows ≡ none
  find?-any p [] h = refl
  find?-any p (x ∷ rows) h = ground (arith, find?-any p rows)

  find?-any-true :
      (p : Row R → Bool) (rows : List (Row R))
      → any p rows ≡ true
      → (x : Row R) × (find? p rows ≡ some x)
  find?-any-true p [] h = cc
  find?-any-true p (x ∷ rows) h = elim (Bool-cases (p x)) [
    | inl e ↦ (x, ground arith)
    | inr e ↦ let (y, found) = find?-any-true p rows (ground arith) in (y, ground arith)
  ]

  -- After an INSERT OR IGNORE the row is there: the one that was, or the new one.
  pub select_one-insert_or_ignore :
      (p : R → Bool) (gap : ℕ) (r : R) (t : Table R)
      → p r ≡ true
      → select_one p (insert_or_ignore p gap r t) ≡ or_new (select_one p t) (t.next_id, r)
  unfolding insert_or_ignore insert
  select_one-insert_or_ignore p gap r t h = elim (Bool-cases (any (columns p) t.rows)) [
    | inl taken ↦ let (x, found) = find?-any-true (columns p) t.rows taken in rw taken (rw found)
    | inr new ↦ ground (
      arith,
      find?-any (columns p) t.rows new,
      find?-append (columns p) t.rows ((t.next_id, r) ∷ []),
    )
  ]

  -- It does not change what a query finds that does not ask for the new row.
  pub select_one-insert_or_ignore_ne :
      (q p : R → Bool) (gap : ℕ) (r : R) (t : Table R)
      → q r ≡ false
      → select_one q (insert_or_ignore p gap r t) ≡ select_one q t
  unfolding insert_or_ignore insert
  select_one-insert_or_ignore_ne q p gap r t h = elim (Bool-cases (any (columns q) t.rows)) [
    | inl there ↦ ground (arith, find?-append (columns q) t.rows ((t.next_id, r) ∷ []))
    | inr missing ↦ ground (
      arith,
      find?-any (columns q) t.rows missing,
      find?-append (columns q) t.rows ((t.next_id, r) ∷ []),
    )
  ]
