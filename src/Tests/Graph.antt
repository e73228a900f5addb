-- ===== src/Tests/Graph.antt =====
-- Runs of the deletion of a graph.
use memori.Prelude.{ℕ, ◌≡◌, refl, none, [], ◌∷◌}
use memori.Exec.{ok}
use memori.Sql.{Row}
use memori.Schema.{Db, EdgeRow, empty_db}
use memori.Conn.{Conn}
use memori.Sqlite.KnowledgeGraph
use memori.Sqlite.KnowledgeGraph.Deletion.{delete_by_entity-IsOnly, IsOnly, IsClosed}
use memori.Tests.{calm, calm-IsQuiet}

-- Two entities that know the same of a rose.
abbrev edge : ℕ → Row EdgeRow
edge i = (
  i,
  record {
    uuid = "u";
    entity_id = i;
    subject_id = 1;
    predicate_id = 1;
    object_id = i;
    num_times = 1;
    date_last_time = 5;
    date_created = 5;
    date_updated = none;
  },
)

abbrev roses : Db
roses = record empty_db {
  subject = record {
    rows =
        (
          1,
          record {
            uuid = "u";
            name = "rose";
            type = "plant";
            uniq = "r";
            date_created = 5;
            date_updated = none;
          },
        )
        ∷ [];
    next_id = 2;
  };
  predicate = record {
    rows =
        (
          1,
          record { uuid = "u"; content = "is"; uniq = "i"; date_created = 5; date_updated = none },
        )
        ∷ [];
    next_id = 2;
  };
  object = record {
    rows =
        (
          1,
          record {
            uuid = "u";
            name = "red";
            type = "colour";
            uniq = "e";
            date_created = 5;
            date_updated = none;
          },
        )
        ∷ (
          2,
          record {
            uuid = "u";
            name = "tall";
            type = "size";
            uniq = "t";
            date_created = 5;
            date_updated = none;
          },
        )
        ∷ [];
    next_id = 3;
  };
  knowledge_graph = record { rows = edge 1 ∷ edge 2 ∷ []; next_id = 3 };
}

abbrev garden : Conn
garden = record { committed = roses; db = roses; step = 0 }

roses-IsClosed : IsClosed roses
roses-IsClosed = record {
  subjects = (refl, (refl, tt));
  predicates = (refl, (refl, tt));
  objects = (refl, (refl, tt));
}

delete_by_entity-IsOnly_example :
    let (r, c') = KnowledgeGraph.delete_by_entity calm 1 garden in
    (r ≡ ok tt) × IsOnly 1 garden.db c'.committed × IsOnly 1 garden.db c'.db
delete_by_entity-IsOnly_example = delete_by_entity-IsOnly calm 1 garden calm-IsQuiet
