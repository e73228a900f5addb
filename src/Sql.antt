-- ===== src/Sql.antt =====
-- What the SQL statements of the drivers do to one table: the rows with their `id` columns, in
-- the order of insertion, and the least number that has not been an `id` yet (AUTOINCREMENT).
-- A statement that a uniqueness constraint turns away may use ids up: `gap` says how many.
pub mod Laws
use memori.Prelude.{
  ℕ, suc, ◌+◌, Bool, Option, none, some, List, [], ◌∷◌, ◌++◌, map, any, filter, find?, not, ◌==◌,
  if◌then◌else◌,
}

-- The `id` of a row, and its other columns.
abbrev pub Row : Type 0 → Type 0
Row R = ℕ × R

pub record Table (R : Type 0) : Type 0 where
  pub rows : List (Row R)
  pub next_id : ℕ

module _ {R : Type 0} where
  abbrev pub empty : Table R
  empty = record { rows = []; next_id = 1 }

  -- `p` reads the columns other than `id`.
  abbrev pub columns : (R → Bool) → Row R → Bool
  columns p (_, r) = p r

  -- INSERT INTO
  unfoldable pub insert : R → Table R → Table R
  insert r t = record { rows = t.rows ++ (t.next_id, r) ∷ []; next_id = suc t.next_id }

  -- INSERT OR IGNORE INTO; `taken` finds the rows that the constraints let no second row join
  unfoldable pub insert_or_ignore : (R → Bool) → ℕ → R → Table R → Table R
  unfolding insert
  insert_or_ignore taken gap r t =
      if any (columns taken) t.rows then record t { next_id = t.next_id + gap } else insert r t

  abbrev pub change : (R → Bool) → (R → R) → Row R → Row R
  change p f (i, r) = (i, (if p r then f r else r))

  abbrev pub change_id : ℕ → (R → R) → Row R → Row R
  change_id k f (i, r) = (i, (if i == k then f r else r))

  -- UPDATE … SET … WHERE id = ?
  unfoldable pub update_id : ℕ → (R → R) → Table R → Table R
  update_id k f t = record t { rows = map (change_id k f) t.rows }

  -- INSERT INTO … ON CONFLICT DO UPDATE SET
  unfoldable pub upsert : (R → Bool) → (R → R) → ℕ → R → Table R → Table R
  unfolding insert
  upsert taken f gap r t =
      if any (columns taken) t.rows
      then record { rows = map (change taken f) t.rows; next_id = t.next_id + gap }
      else insert r t

  -- DELETE FROM … WHERE
  unfoldable pub delete : (Row R → Bool) → Table R → Table R
  delete p t = record t { rows = filter (λ row. not (p row)) t.rows }

  -- SELECT … WHERE, with `fetchone`
  abbrev pub select_one : (R → Bool) → Table R → Option (Row R)
  select_one p t = find? (columns p) t.rows

  -- SELECT … WHERE id = ?, with `fetchone`
  abbrev pub select_id : ℕ → Table R → Option (Row R)
  select_id k t = find? (λ row. row.0 == k) t.rows

  -- SELECT … WHERE, with `fetchall`
  abbrev pub select : (R → Bool) → Table R → List (Row R)
  select p t = filter (columns p) t.rows

  -- `row.get("id")` of a row that `fetchone` gave
  abbrev pub id_of : Option (Row R) → Option ℕ
  id_of none = none
  id_of (some (i, _)) = some i
