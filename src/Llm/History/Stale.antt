-- ===== src/Llm/History/Stale.antt =====
-- What the count of injected messages is after an injection.
use memori.Prelude.{ℕ, zero, suc, ◌≤◌, ◌≡◌, refl, true, false, some, List, [], ◌∷◌, length, arith}
use memori.Exec.{Result, ok}
use memori.Conn.{Env}
use memori.Memory.Config.{Config}
use memori.Sqlite.Conversation.{read_messages}
use memori.Llm.{Client, Texts}
use memori.Llm.Injection.{Kwargs, Builders}
use memori.Embeddings.{drop}
use memori.Llm.Query.{chat_query}
use memori.Llm.History.{Invoke, inject_conversation_messages}

abbrev pub counted : {M G : Type 0} → Result (Kwargs M G) × Invoke → ℕ
counted (r, s) = s.injected_message_count

drop-all : {A : Type 0} (n : ℕ) (xs : List A) → length xs ≤ n → drop n xs ≡ []
drop-all zero [] h = refl
drop-all zero (x ∷ xs) h = absurd (omega arith)
drop-all (suc n) [] h = refl
drop-all (suc n) (x ∷ xs) h = drop-all n xs (omega arith)

-- In a local store, where the cached conversation has no messages, a chat's request is returned as it
-- is and the count of what was injected stays that of an earlier request; if the request has at most
-- as many messages as that, what is then read of it to be stored is nothing.
pub inject_conversation_messages-stale :
    {M G : Type 0} (env : Env) (config : Config) (texts : Texts) (build : Builders M G)
    (client : Client) (kwargs : Kwargs M G) (messages : List M) (i : ℕ) (s : Invoke)
    → config.cloud ≡ false
    → config.has_storage ≡ true
    → s.app.cache.conversation_id ≡ some i
    → (read_messages env i s.app.conn).0 ≡ ok []
    → kwargs.messages ≡ some messages
    → length messages ≤ s.injected_message_count
    → let r = inject_conversation_messages env config texts build client kwargs s in
      (r.0 ≡ ok kwargs)
      × (counted r ≡ s.injected_message_count)
      × (chat_query kwargs.messages (counted r) ≡ [])
unfolding inject_conversation_messages
inject_conversation_messages-stale env config texts build client kwargs messages i s local store
      cached empty chat few =
    rw chat (ground (arith, drop-all s.injected_message_count messages few))
