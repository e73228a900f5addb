-- ===== src/Server/Keys.antt =====
-- The uniqueness constraints and the ids, where foreign keys cascade and counters are kept.
use memori.Prelude.{ℕ, Bool, arith}
use Prim.Native.Nat.{max}
use memori.Sql.{Table}
use memori.Sql.Laws.{IsSound, Below-mono, delete-IsSound}
use memori.Schema.{Db}
use memori.Foreign.{delete_facts}
use memori.Server.{keep_id, keep_ids}
use memori.Sqlite.Keys.{IsKeyed}

keep_id-IsSound :
    {R : Type 0} (same : R → R → Bool) (t u : Table R) → IsSound same t → IsSound same (keep_id t u)
keep_id-IsSound same t u s = record {
  below = Below-mono t.next_id (max t.next_id u.next_id) t.rows (omega arith) s.below;
  ascending = s.ascending;
  unique = s.unique;
}

pub keep_ids-IsKeyed : (db other : Db) → IsKeyed db → IsKeyed (keep_ids db other)
unfolding keep_ids
keep_ids-IsKeyed db other k = search keep_id-IsSound

pub delete_facts-IsKeyed : (db : Db) → IsKeyed db → (e : ℕ) → IsKeyed (delete_facts e db)
unfolding delete_facts
delete_facts-IsKeyed db k e = search (delete-IsSound)
