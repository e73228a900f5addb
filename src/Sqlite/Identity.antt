-- ===== src/Sqlite/Identity.antt =====
-- Ids are for ever: what a `create` returned for a key, it returns ever after.
use memori.Prelude.{
  ==_sound, ℕ, suc, String, ◌≡◌, refl, sym, ◌∙◌, Bool, true, Option, none, some, List, arith,
  Bool-cases, inl, inr, str_eq, eq_iff, ◌==◌, [], ◌∷◌, find?, map,
}
use memori.Exec.{ok}
use memori.Sql.{
  Row, Table, insert_or_ignore, update_id, change_id, select_one, select, id_of, columns,
}
use memori.Sql.Laws.{or_new, select_one-insert_or_ignore, select_one-insert_or_ignore_ne}
use memori.Schema.{Db, EntityRow, ProcessRow, SessionRow, ConversationRow}
use memori.Conn.{Env, Conn, Stamp, stamp, execute}
use memori.Conn.Quiet.{Both, get_or_create-finds, get_or_create-known}
use memori.Sqlite.Entity
use memori.Sqlite.Entity.{insert_entity}
use memori.Sqlite.Calls.{Call, run_calls}
use memori.Sqlite.Invariant.{IsInvariant}
use memori.Sqlite.Invariant.Runs.{run_calls-keeps}
use memori.Sqlite.Process
use memori.Sqlite.Process.{insert_process, upsert_attribute}
use memori.Sqlite.Session
use memori.Sqlite.Session.{insert_session}
use memori.Sqlite.Conversation
use memori.Sqlite.Conversation.{insert_conversation, insert_message, last_activity, of_conversation}
use memori.Sqlite.EntityFact.{upsert_fact, insert_mention}
use memori.Sqlite.KnowledgeGraph.{
  insert_subject, insert_predicate, insert_object, upsert_edge, delete_edges, delete_subjects,
  delete_predicates, delete_objects,
}

id_of-or_new :
    {R : Type 0} (o : Option (Row R)) (x : Row R) (i : ℕ)
    → id_of o ≡ some i
    → id_of (or_new o x) ≡ some i
id_of-or_new none x i h = cc
id_of-or_new (some y) x i h = h

-- A key that the table has stays where it is, whichever row comes.
module _ {R K : Type 0} (key : R → K) (eq : K → K → Bool)
    (sound : (a b : K) → eq a b ≡ true → a ≡ b) where
  abbrev has : K → R → Bool
  has x r = eq x (key r)

  id-insert_or_ignore :
      (x : K) (gap i : ℕ) (r : R) (t : Table R)
      → id_of (select_one (has x) t) ≡ some i
      → id_of (select_one (has x) (insert_or_ignore (has (key r)) gap r t)) ≡ some i
  id-insert_or_ignore x gap i r t h = elim (Bool-cases (eq x (key r))) [
    | inl same ↦ rw (← (sound x (key r) same)) (
        rw (select_one-insert_or_ignore (has x) gap r t same)
          (id_of-or_new (select_one (has x) t) (t.next_id, r) i h))
    | inr other ↦ rw (select_one-insert_or_ignore_ne (has x) (has (key r)) gap r t other) h
  ]

str_eq_sound : (a b : String) → str_eq a b ≡ true → a ≡ b
str_eq_sound a b = (eq_iff a b).0

-- The tables whose ids are cached by their clients, and a key of each.
pub data Key : Type 0 where
  entity process session : String → Key
  conversation : ℕ → Key

abbrev pub find_key : Key → Db → Option ℕ
find_key (entity x) = Entity.find x
find_key (process x) = Process.find x
find_key (session x) = Session.find x
find_key (conversation n) = Conversation.find n

abbrev pub Knows : Key → ℕ → Db → Type 0
Knows k i db = find_key k db ≡ some i

module _ (i : ℕ) (s : Stamp) (db : Db) where
  entity_keeps : (k : Key) → Knows k i db → (x : String) → Knows k i (insert_entity x s db)
  unfolding insert_entity
  entity_keeps (entity y) h x =
      id-insert_or_ignore (λ (r : EntityRow). r.external_id) str_eq str_eq_sound y s.gap i _
        db.entity h
  entity_keeps (process y) h x = h
  entity_keeps (session y) h x = h
  entity_keeps (conversation n) h x = h

  process_keeps : (k : Key) → Knows k i db → (x : String) → Knows k i (insert_process x s db)
  unfolding insert_process
  process_keeps (process y) h x =
      id-insert_or_ignore (λ (r : ProcessRow). r.external_id) str_eq str_eq_sound y s.gap i _
        db.process h
  process_keeps (entity y) h x = h
  process_keeps (session y) h x = h
  process_keeps (conversation n) h x = h

  session_keeps :
      (k : Key)
      → Knows k i db
      → (x : String) (e p : Option ℕ) → Knows k i (insert_session x e p s db)
  unfolding insert_session
  session_keeps (session y) h x e p =
      id-insert_or_ignore (λ (r : SessionRow). r.uuid) str_eq str_eq_sound y s.gap i _ db.session h
  session_keeps (entity y) h x e p = h
  session_keeps (process y) h x e p = h
  session_keeps (conversation n) h x e p = h

  conversation_keeps : (k : Key) → Knows k i db → (n : ℕ) → Knows k i (insert_conversation n s db)
  unfolding insert_conversation
  conversation_keeps (conversation m) h n =
      id-insert_or_ignore (λ (r : ConversationRow). r.session_id) ◌==◌ ==_sound m s.gap i _
        db.conversation h
  conversation_keeps (entity y) h n = h
  conversation_keeps (process y) h n = h
  conversation_keeps (session y) h n = h

id-summary :
    (n k : ℕ) (text : String) (rows : List (Row ConversationRow))
    → id_of (
        find?
          (columns (Conversation.of_session n))
          (map (change_id k (λ c. record c { summary = some text })) rows))
      ≡ id_of (find? (columns (Conversation.of_session n)) rows)
id-summary n k text [] = refl
id-summary n k text (row ∷ rows) = ground (arith, id-summary n k text rows)

summary_keeps :
    (i : ℕ) (k : Key) (db : Db)
    → Knows k i db
    → (j : ℕ) (text : String)
    → Knows k i (record db {
      conversation = update_id j (λ c. record c { summary = some text }) db.conversation;
    })
unfolding update_id
summary_keeps i (conversation n) db h j text = id-summary n j text db.conversation.rows ∙ h
summary_keeps i (entity x) db h j text = h
summary_keeps i (process x) db h j text = h
summary_keeps i (session x) db h j text = h

-- A statement that leaves the four tables alone.
elsewhere :
    (i : ℕ) (k : Key) (db db' : Db)
    → (db.entity ≡ db'.entity)
      × (db.process ≡ db'.process)
      × (db.session ≡ db'.session)
      × (db.conversation ≡ db'.conversation)
    → Knows k i db
    → Knows k i db'
elsewhere i (entity x) db db' e h = rw (← e.0) h
elsewhere i (process x) db db' e h = rw (← e.1) h
elsewhere i (session x) db db' e h = rw (← e.2) h
elsewhere i (conversation n) db db' e h = rw (← e.3) h

Knows-IsInvariant : (k : Key) (i : ℕ) → IsInvariant (Knows k i)
unfolding insert_message upsert_attribute upsert_fact insert_mention insert_subject insert_predicate
    insert_object upsert_edge delete_edges delete_subjects delete_predicates delete_objects
Knows-IsInvariant k i = record {
  entity = λ s db h x. entity_keeps i s db k h x;
  process = λ s db h x. process_keeps i s db k h x;
  session = λ s db h x e p. session_keeps i s db k h x e p;
  conversation = λ s db h n. conversation_keeps i s db k h n;
  message = λ s db h j role type content. elsewhere i k db _ (refl, refl, refl, refl) h;
  attribute = λ s db h j text uniq. elsewhere i k db _ (refl, refl, refl, refl) h;
  fact = λ s db h j text e uniq. elsewhere i k db _ (refl, refl, refl, refl) h;
  mention = λ s db h j l c. elsewhere i k db _ (refl, refl, refl, refl) h;
  subject = λ s db h name type uniq. elsewhere i k db _ (refl, refl, refl, refl) h;
  predicate = λ s db h content uniq. elsewhere i k db _ (refl, refl, refl, refl) h;
  object = λ s db h name type uniq. elsewhere i k db _ (refl, refl, refl, refl) h;
  edge = λ s db h e a b c. elsewhere i k db _ (refl, refl, refl, refl) h;
  summary = λ db h j text. summary_keeps i k db h j text;
  facts_deleted = λ db h p. elsewhere i k db _ (refl, refl, refl, refl) h;
  edges_deleted = λ db h e. elsewhere i k db _ (refl, refl, refl, refl) h;
  subjects_deleted = λ db h. elsewhere i k db _ (refl, refl, refl, refl) h;
  predicates_deleted = λ db h. elsewhere i k db _ (refl, refl, refl, refl) h;
  objects_deleted = λ db h. elsewhere i k db _ (refl, refl, refl, refl) h;
}

-- Once `Entity.create` has returned an id for an external id, every later `Entity.create` of the
-- same external id that returns, returns the same id: after any run of the driver's writing
-- methods, commits and rollbacks, whichever of their statements raise.
pub entity_id_stable :
    (env : Env) (x : String) (i j : ℕ) (calls : List Call) (c : Conn)
    → (Entity.create env x c).0 ≡ ok i
    → (Entity.create env x (run_calls env calls (Entity.create env x c).1)).0 ≡ ok j
    → j ≡ i
unfolding Entity.create
entity_id_stable env x i j calls c first later =
    get_or_create-known env (insert_entity x) (Entity.find x) i j _
      (entity_keeps i _ _ (entity x) still.db x) later
  where
    still : Both (Knows (entity x) i) (run_calls env calls (Entity.create env x c).1)
    still =
        run_calls-keeps (Knows-IsInvariant (entity x) i) env calls (Entity.create env x c).1
          (get_or_create-finds env (insert_entity x) (Entity.find x) i c first)

-- The same of `Session.create` for a session's uuid, whatever entity and process are given later.
pub session_id_stable :
    (env : Env) (x : String) (e p e' p' : Option ℕ) (i j : ℕ) (calls : List Call) (c : Conn)
    → (Session.create env x e p c).0 ≡ ok i
    → (Session.create env x e' p' (run_calls env calls (Session.create env x e p c).1)).0 ≡ ok j
    → j ≡ i
unfolding Session.create
session_id_stable env x e p e' p' i j calls c first later =
    get_or_create-known env (insert_session x e' p') (Session.find x) i j _
      (session_keeps i _ _ (session x) still.db x e' p') later
  where
    still : Both (Knows (session x) i) (run_calls env calls (Session.create env x e p c).1)
    still =
        run_calls-keeps (Knows-IsInvariant (session x) i) env calls (Session.create env x e p c).1
          (get_or_create-finds env (insert_session x e p) (Session.find x) i c first)

-- What is asked next: whether the conversation is recent. Either way its id is returned.
resume-known :
    (env : Env) (n timeout i j last : ℕ) (c : Conn)
    → Knows (conversation n) i c.db
    → (Conversation.resume env n timeout (some (i, last)) c).0 ≡ ok j
    → j ≡ i
unfolding Conversation.resume execute
resume-known env n timeout i j last c k h = ground (
  arith,
  get_or_create-known env (insert_conversation n) (Conversation.find n) i j
      (record c { step = suc c.step })
      (conversation_keeps i (stamp env (suc c.step)) c.db (conversation n) k n),
)

create-known :
    (env : Env) (n timeout i j : ℕ) (found : Option (Row ConversationRow)) (c : Conn)
    → id_of found ≡ some i
    → Knows (conversation n) i c.db
    → (Conversation.resume env n timeout (Conversation.activity_of c.db found) c).0 ≡ ok j
    → j ≡ i
create-known env n timeout i j none c e k h = cc
create-known env n timeout i j (some (l, r)) c e k h = cc (
  e,
  resume-known env n timeout l j
      (last_activity r (select (of_conversation l) c.db.conversation_message)) c (k ∙ sym e) h,
)

-- A session that has a conversation never gets another one: `Conversation.create` returns, if it
-- returns, the id of that conversation, however long ago its last activity was, and whatever
-- timeout is given.
pub conversation_ignores_timeout :
    (env : Env) (n timeout i j : ℕ) (c : Conn)
    → Conversation.find n c.db ≡ some i
    → (Conversation.create env n timeout c).0 ≡ ok j
    → j ≡ i
unfolding Conversation.create execute
conversation_ignores_timeout env n timeout i j c k h = ground (
  arith,
  create-known env n timeout i j (select_one (Conversation.of_session n) c.db.conversation)
      (record c { step = suc c.step }) k k,
)
