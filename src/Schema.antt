-- ===== src/Schema.antt =====
-- The tables of memori/storage/migrations/_sqlite.py: a record for the columns of each but `id`,
-- and the test for its uniqueness constraint. A date is a number of seconds; `date_updated` is
-- NULL in every row, since no statement of the driver writes it.
use memori.Prelude.{ℕ, String, Option, List, []}
use memori.Sql
use memori.Sql.{Table}

pub record EntityRow : Type 0 where
  pub uuid : String
  pub external_id : String
  pub date_created : ℕ
  pub date_updated : Option ℕ

pub record ProcessRow : Type 0 where
  pub uuid : String
  pub external_id : String
  pub date_created : ℕ
  pub date_updated : Option ℕ

pub record SessionRow : Type 0 where
  pub uuid : String
  pub entity_id : Option ℕ
  pub process_id : Option ℕ
  pub date_created : ℕ
  pub date_updated : Option ℕ

pub record ConversationRow : Type 0 where
  pub uuid : String
  pub session_id : ℕ
  pub summary : Option String
  pub date_created : ℕ
  pub date_updated : Option ℕ

pub record MessageRow : Type 0 where
  pub uuid : String
  pub conversation_id : ℕ
  pub role : String
  pub type : Option String
  pub content : String
  pub date_created : ℕ
  pub date_updated : Option ℕ

pub record FactRow : Type 0 where
  pub uuid : String
  pub entity_id : ℕ
  pub content : String
  pub content_embedding : List ℕ
  pub num_times : ℕ
  pub date_last_time : ℕ
  pub uniq : String
  pub date_created : ℕ
  pub date_updated : Option ℕ

pub record AttributeRow : Type 0 where
  pub uuid : String
  pub process_id : ℕ
  pub content : String
  pub num_times : ℕ
  pub date_last_time : ℕ
  pub uniq : String
  pub date_created : ℕ
  pub date_updated : Option ℕ

pub record SubjectRow : Type 0 where
  pub uuid : String
  pub name : String
  pub type : String
  pub uniq : String
  pub date_created : ℕ
  pub date_updated : Option ℕ

pub record PredicateRow : Type 0 where
  pub uuid : String
  pub content : String
  pub uniq : String
  pub date_created : ℕ
  pub date_updated : Option ℕ

pub record ObjectRow : Type 0 where
  pub uuid : String
  pub name : String
  pub type : String
  pub uniq : String
  pub date_created : ℕ
  pub date_updated : Option ℕ

pub record EdgeRow : Type 0 where
  pub uuid : String
  pub entity_id : ℕ
  pub subject_id : ℕ
  pub predicate_id : ℕ
  pub object_id : ℕ
  pub num_times : ℕ
  pub date_last_time : ℕ
  pub date_created : ℕ
  pub date_updated : Option ℕ

pub record MentionRow : Type 0 where
  pub uuid : String
  pub entity_id : ℕ
  pub fact_id : ℕ
  pub conversation_id : ℕ
  pub date_created : ℕ
  pub date_updated : Option ℕ

-- The database. `memori_schema_version` has the one column `num`.
pub record Db : Type 0 where
  pub schema_version : List ℕ
  pub entity : Table EntityRow
  pub process : Table ProcessRow
  pub session : Table SessionRow
  pub conversation : Table ConversationRow
  pub conversation_message : Table MessageRow
  pub entity_fact : Table FactRow
  pub process_attribute : Table AttributeRow
  pub subject : Table SubjectRow
  pub predicate : Table PredicateRow
  pub object : Table ObjectRow
  pub knowledge_graph : Table EdgeRow
  pub entity_fact_mention : Table MentionRow

abbrev pub empty_db : Db
empty_db = record {
  schema_version = [];
  entity = Sql.empty;
  process = Sql.empty;
  session = Sql.empty;
  conversation = Sql.empty;
  conversation_message = Sql.empty;
  entity_fact = Sql.empty;
  process_attribute = Sql.empty;
  subject = Sql.empty;
  predicate = Sql.empty;
  object = Sql.empty;
  knowledge_graph = Sql.empty;
  entity_fact_mention = Sql.empty;
}
