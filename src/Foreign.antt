-- ===== src/Foreign.antt =====
-- The foreign keys that storage/migrations declares, for the servers that enforce them: what a new
-- row must refer to, and what goes with a deleted row (ON DELETE CASCADE).
use memori.Prelude.{ℕ, Bool, true, Option, none, some, ◌&&◌, any, not, ◌==◌}
use memori.Sql.{Row, Table, delete}
use memori.Schema.{Db, FactRow}

module _ {R : Type 0} where
  -- `k` is the id of a row.
  abbrev pub holds : ℕ → Table R → Bool
  holds k t = any (λ (row : Row R). row.0 == k) t.rows

  -- A column that may be NULL.
  abbrev pub may_refer : Option ℕ → Table R → Bool
  may_refer none t = true
  may_refer (some k) t = holds k t

-- `memori_entity_fact (entity_id, id)`
abbrev pub holds_fact : ℕ → ℕ → Table FactRow → Bool
holds_fact e k t = any (λ (row : Row FactRow). row.0 == k && row.1.entity_id == e) t.rows

abbrev pub session_fits : Option ℕ → Option ℕ → Db → Bool
session_fits e p db = may_refer e db.entity && may_refer p db.process

abbrev pub conversation_fits : ℕ → Db → Bool
conversation_fits session_id db = holds session_id db.session

abbrev pub message_fits : ℕ → Db → Bool
message_fits conversation_id db = holds conversation_id db.conversation

abbrev pub fact_fits : ℕ → Db → Bool
fact_fits entity_id db = holds entity_id db.entity

abbrev pub attribute_fits : ℕ → Db → Bool
attribute_fits process_id db = holds process_id db.process

abbrev pub edge_fits : ℕ → ℕ → ℕ → ℕ → Db → Bool
edge_fits e a b c db =
    holds e db.entity && (holds a db.subject && (holds b db.predicate && holds c db.object))

abbrev pub mention_fits : ℕ → ℕ → ℕ → Db → Bool
mention_fits e f c db = holds_fact e f db.entity_fact && holds c db.conversation

-- DELETE FROM memori_entity_fact, with the mentions of the facts that go
unfoldable pub delete_facts : ℕ → Db → Db
delete_facts entity_id db =
    let facts = delete (λ row. entity_id == row.1.entity_id) db.entity_fact in
    record db {
      entity_fact = facts;
      entity_fact_mention =
          delete (λ row. not (holds_fact row.1.entity_id row.1.fact_id facts))
            db.entity_fact_mention;
    }
