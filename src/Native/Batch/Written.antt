-- ===== src/Native/Batch/Written.antt =====
-- Which operations of a batch count as written.
use memori.Prelude.{
  ℕ, suc, ◌+◌, ◌≤◌, ◌≡◌, refl, String, Bool, true, false, ◌&&◌, Option, none, some, List, [], ◌∷◌,
  length, filter, str_eq, if◌then◌else◌, arith, Bool-cases, inl, inr,
}
use memori.Exec.{Exec, Result, other, ok, err, continue, pure, or_raise, ◌>>=◌, ◌>>◌}
use memori.Exec.Returns.{Returns, Returns-bind}
use memori.Conn.{Env, Conn, commit}
use memori.Json.{
  Json, null, boolean, number, text, array, object, Items, nil, cons, Fields, items, get,
}
use memori.Struct.{SemanticTriple}
use memori.Native.Values.{
  Values, given, to_optional_int, facts_of, to_semantic_triples, normalize_attributes,
}
use memori.Native.Batch.{
  Services, summary_text, content_text, name_of, write_facts, create_entity_facts, write_triples,
  create_knowledge_graph, write_attributes, create_process_attributes, set_summary,
  update_conversation, upsert_fact, apply_write_op, apply_payload, object_of, payload_of, ops_of,
  parse_object, apply_op, apply_ops, write_batch,
}
use memori.Storage.Connection.{connection_context, undo_and_raise}

abbrev is_some : {A : Type 0} → Option A → Bool
is_some none = false
is_some (some a) = true

abbrev is_any : {A : Type 0} → List A → Bool
is_any [] = false
is_any (x ∷ xs) = true

module _ (py : Values) where
  -- The value names an integer.
  abbrev is_id : Option Json → Bool
  is_id (some (boolean b)) = true
  is_id (some (number n)) = is_some (py.int_number n)
  is_id (some (text s)) = py.is_digit s
  is_id v = false

  -- What an operation of each kind must carry.
  abbrev pub accepts : String → Fields → Bool
  accepts op_type payload =
      if str_eq op_type "entity_fact.create"
      then is_some (given py (get "entity_id" payload))
        && is_any (facts_of py (get "facts" payload))
      else if str_eq op_type "knowledge_graph.create"
      then is_some (given py (get "entity_id" payload))
        && is_any (to_semantic_triples py (get "semantic_triples" payload))
      else if str_eq op_type "process_attribute.create"
      then is_some (given py (get "process_id" payload))
        && is_any (normalize_attributes py (get "attributes" payload))
      else if str_eq op_type "conversation.update"
      then is_id (get "conversation_id" payload)
        && is_some (summary_text py (get "summary" payload))
      else if str_eq op_type "upsert_fact"
      then is_some (given py (get "entity_id" payload))
        && is_some (content_text py (get "content" payload))
      else false

  abbrev accepts_payload : String → Option Fields → Bool
  accepts_payload op_type none = false
  accepts_payload op_type (some payload) = accepts op_type payload

  abbrev accepts_object : Option Fields → Bool
  accepts_object none = false
  accepts_object (some op) =
      accepts_payload (name_of (get "op_type" op)) (payload_of (get "payload" op))

  -- An operation that is an object, whose payload is one and carries what its kind must.
  abbrev pub is_accepted : Json → Bool
  is_accepted op = accepts_object (object_of op)

  abbrev pub accepted : Items → ℕ
  accepted ops = length (filter is_accepted (items ops))

-- The value that an action returns, if it does.
abbrev Gives : {A : Type 0} → A → Exec Conn A → Type 0
Gives a m = Returns (λ b _. b ≡ a) m

Gives-pure : {A : Type 0} (a : A) → Gives a (pure a)
Gives-pure a = record { at = λ s b h. ground arith }

-- The last step decides.
Gives-then :
    {A B : Type 0} (b : B) (m : Exec Conn A) (k : A → Exec Conn B)
    → ((a : A) → Gives b (k a))
    → Gives b (m >>= k)
Gives-then b m k h = Returns-bind m k h

module _ (env : Env) (py : Values) (services : Services) where
  Gives-write_facts :
      (e : ℕ) (payload : Fields) (facts : List String)
      → Gives (is_any facts) (write_facts env py services e payload facts)
  unfolding write_facts
  Gives-write_facts e payload [] = Gives-pure _
  Gives-write_facts e payload (f ∷ fs) = search (Gives-then, Gives-pure)

  Gives-create_entity_facts :
      (raw : Option String) (payload : Fields)
      → Gives
          (is_some raw && is_any (facts_of py (get "facts" payload)))
          (create_entity_facts env py services raw payload)
  unfolding create_entity_facts
  Gives-create_entity_facts none payload = Gives-pure _
  Gives-create_entity_facts (some raw) payload = search (Gives-then, Gives-write_facts)

  Gives-write_triples :
      (e : ℕ) (ts : List SemanticTriple) → Gives (is_any ts) (write_triples env py services e ts)
  unfolding write_triples
  Gives-write_triples e [] = Gives-pure _
  Gives-write_triples e (t ∷ ts) = search (Gives-then, Gives-pure)

  Gives-create_knowledge_graph :
      (raw : Option String) (payload : Fields)
      → Gives
          (is_some raw && is_any (to_semantic_triples py (get "semantic_triples" payload)))
          (create_knowledge_graph env py services raw payload)
  unfolding create_knowledge_graph
  Gives-create_knowledge_graph none payload = Gives-pure _
  Gives-create_knowledge_graph (some raw) payload = search (Gives-then, Gives-write_triples)

  Gives-write_attributes :
      (p : ℕ) (xs : List String) → Gives (is_any xs) (write_attributes env py services p xs)
  unfolding write_attributes
  Gives-write_attributes p [] = Gives-pure _
  Gives-write_attributes p (x ∷ xs) = search (Gives-then, Gives-pure)

  Gives-create_process_attributes :
      (raw : Option String) (payload : Fields)
      → Gives
          (is_some raw && is_any (normalize_attributes py (get "attributes" payload)))
          (create_process_attributes env py services raw payload)
  unfolding create_process_attributes
  Gives-create_process_attributes none payload = Gives-pure _
  Gives-create_process_attributes (some raw) payload = search (Gives-then, Gives-write_attributes)

  Gives-set_summary :
      (i : Option ℕ) (s : Option String)
      → Gives (is_some i && is_some s) (set_summary env py services i s)
  unfolding set_summary
  Gives-set_summary (some i) (some s) = search (Gives-then, Gives-pure)
  Gives-set_summary (some i) none = Gives-pure _
  Gives-set_summary none s = Gives-pure _

  Gives-upsert_fact :
      (raw content : Option String)
      → Gives (is_some raw && is_some content) (upsert_fact env py services raw content)
  unfolding upsert_fact
  Gives-upsert_fact (some raw) (some content) = search (Gives-then, Gives-pure)
  Gives-upsert_fact (some raw) none = Gives-pure _
  Gives-upsert_fact none content = Gives-pure _

  Gives-digits :
      (o : Option ℕ) (s : Option String)
      → Gives
          (is_some s)
          ((or_raise other o >>= (λ i. pure (some i))) >>= λ i. set_summary env py services i s)
  Gives-digits none s = record { at = λ c b h. cc }
  Gives-digits (some i) s = Gives-set_summary (some i) s

  -- The id that is read decides, once it is read.
  Gives-update_conversation :
      (payload : Fields)
      → Gives
          (is_id py (get "conversation_id" payload)
            && is_some (summary_text py (get "summary" payload)))
          (update_conversation env py services payload)
  unfolding update_conversation to_optional_int
  Gives-update_conversation payload =
      go (get "conversation_id" payload) (summary_text py (get "summary" payload))
    where
      go :
          (v : Option Json) (s : Option String)
          → Gives
              (is_id py v && is_some s)
              (to_optional_int py v >>= λ i. set_summary env py services i s)
      go none s = Gives-set_summary none s
      go (some null) s = Gives-set_summary none s
      go (some (boolean b)) s = Gives-set_summary (some _) s
      go (some (number n)) s = Gives-set_summary (py.int_number n) s
      go (some (text t)) s = elim (Bool-cases (py.is_digit t)) [
        | inl e ↦ rw e (Gives-digits (py.int_of t) s)
        | inr e ↦ rw e (Gives-set_summary none s)
      ]
      go (some (array xs)) s = Gives-set_summary none s
      go (some (object d)) s = Gives-set_summary none s

  Gives-if :
      (t b d : Bool) (m n : Exec Conn Bool)
      → Gives b m
      → Gives d n
      → Gives (if t then b else d) (if t then m else n)
  Gives-if true b d m n hm hn = hm
  Gives-if false b d m n hm hn = hn

  Gives-apply_write_op :
      (op_type : String) (payload : Fields)
      → Gives (accepts py op_type payload) (apply_write_op env py services op_type payload)
  unfolding apply_write_op
  Gives-apply_write_op op_type payload =
      search
        (
          Gives-if, Gives-create_entity_facts, Gives-create_knowledge_graph,
          Gives-create_process_attributes, Gives-update_conversation, Gives-upsert_fact, Gives-pure,
        )
        depth 10

  Gives-apply_payload :
      (op_type : String) (payload : Option Fields)
      → Gives (accepts_payload py op_type payload) (apply_payload env py services op_type payload)
  Gives-apply_payload op_type none = Gives-pure _
  Gives-apply_payload op_type (some payload) = Gives-apply_write_op op_type payload

  Gives-apply_op : (op : Option Fields) → Gives (accepts_object py op) (apply_op env py services op)
  unfolding apply_op
  Gives-apply_op none = Gives-pure _
  Gives-apply_op (some op) = search Gives-apply_payload

  apply_ops-accepted :
      (ops : Items) (written n : ℕ) (c : Conn)
      → (apply_ops env py services ops written c).0 ≡ ok n
      → n ≡ written + accepted py ops
  unfolding apply_ops
  apply_ops-accepted nil written n c h = ground arith
  apply_ops-accepted (cons op ops) written n c h =
      let (r, c') = apply_op env py services (object_of op) c in
      next r c' (λ w. apply_ops env py services ops w) ((Gives-apply_op (object_of op)).at c)
        (λ w c'' h'. apply_ops-accepted ops w n c'' h') h
    where
      next :
          (r : Result Bool) (c' : Conn) (rest : ℕ → Exec Conn ℕ)
          → ((b : Bool) → r ≡ ok b → b ≡ is_accepted py op)
          → ((w : ℕ) (c'' : Conn) → (rest w c'').0 ≡ ok n → n ≡ w + accepted py ops)
          → (continue r (λ did. rest (if did then suc written else written)) c').0 ≡ ok n
          → n ≡ written + accepted py (cons op ops)
      next (err e) c' rest k ih h' = cc
      next (ok did) c' rest k ih h' =
          ground (arith, k did refl, ih (if did then suc written else written) c' h')

length-filter {ℓ} : {A : Type ℓ} (p : A → Bool) (xs : List A) → length (filter p xs) ≤ length xs
length-filter p [] = omega arith
length-filter p (x ∷ xs) = ground (arith, length-filter p xs)

length-items : (py : Values) (ops : Items) → accepted py ops ≤ length (items ops)
length-items py ops = length-filter (is_accepted py) (items ops)

undone-ok :
    {A : Type 0} (env : Env) (r : Result A × Conn) (a : A)
    → (undo_and_raise env r).0 ≡ ok a
    → r.0 ≡ ok a
undone-ok env (ok b, c) a h = h
undone-ok env (err e, c) a h = h

committed-ok :
    {A : Type 0} (env : Env) (r : Result A) (a : A) (c : Conn)
    → (continue r (λ b. commit env >> pure b) c).0 ≡ ok a
    → r ≡ ok a
committed-ok env (ok b) a c h =
    Returns.at
      (Returns-bind {Q = λ a' _. ok b ≡ ok a'} (commit env) (λ _. pure b)
        (λ _. record { at = λ s a' e. e }))
      c a h
committed-ok env (err e) a c h = cc

-- A batch that returns reports as written just those operations of its list that are objects with
-- an object for a payload that carries what their kind needs: at most as many as it was given.
pub write_batch-accepted :
    (env : Env) (py : Values) (services : Services) (batch_json : String) (batch : Fields)
    (ops : Items) (n : ℕ) (c : Conn)
    → parse_object services batch_json ≡ some batch
    → ops_of (get "ops" batch) ≡ some ops
    → (write_batch env py services batch_json c).0 ≡ ok n
    → (n ≡ accepted py ops) × (n ≤ length (items ops))
unfolding write_batch connection_context
write_batch-accepted env py services batch_json batch ops n c p q h =
    let all : n ≡ accepted py ops = omega (
      arith,
      apply_ops-accepted env py services ops 0 n c
          (committed-ok env _ n _ (undone-ok env _ n (returned h))),
    ) in
    (all, omega (arith, all, length-items py ops))
  where
    returned :
        (write_batch env py services batch_json c).0 ≡ ok n
        → (connection_context env (apply_ops env py services ops 0) c).0 ≡ ok n
    returned h' = ground (arith, p, q)
