-- ===== src/Llm/Injection/Excluded.antt =====
-- Injected messages are left out again before a turn is stored.
use memori.Prelude.{
  ℕ, Bool, true, false, none, some, Bool-cases, inl, inr, arith, List, [], ◌∷◌, ◌++◌, ◌≡◌, refl,
  ◌||◌, ◌&&◌, map, filter, length, not, if◌then◌else◌,
}
use memori.Exec.{Result, ok}
use memori.Sqlite.Conversation.{Message}
use memori.Embeddings.{drop}
use memori.Llm.{
  Client, Texts, llm_is_openai, llm_is_litellm, agno_is_openai, llm_is_anthropic, agno_is_anthropic,
}
use memori.Llm.Injection.{
  Kwargs, Builders, prepend, is_openai_like, is_anthropic_like, inject_messages_by_provider,
  is_responses, is_system, sanitize_history_for_openai_compat,
}
use memori.Llm.Query.{chat_query}

pub drop-append : {A : Type 0} (xs ys : List A) → drop (length xs) (xs ++ ys) ≡ ys
drop-append [] ys = refl
drop-append (x ∷ xs) ys = drop-append xs ys

-- The request is returned with the history before its messages, and what the adapter reads of that
-- request, when it is still one without `input` and `instructions`, are the messages again.
pub record Restores {M G : Type 0} (history messages : List M) (result : Result (Kwargs M G × ℕ))
    : Type 0 where
  pub kwargs : Kwargs M G
  pub count : ℕ
  pub returned : result ≡ ok (kwargs, count)
  pub whole : kwargs.messages ≡ some (history ++ messages)
  pub no_input : kwargs.input ≡ none
  pub no_instructions : kwargs.instructions ≡ none
  pub stored : chat_query kwargs.messages count ≡ messages

-- The requests of these clients are read by OpenAI's adapter or by Anthropic's.
abbrev pub reads_as_openai : Client → Bool
reads_as_openai c = llm_is_openai c || (llm_is_litellm c || agno_is_openai c)

abbrev pub reads_as_anthropic : Client → Bool
reads_as_anthropic c = llm_is_anthropic c || agno_is_anthropic c

-- The history that goes to OpenAI's clients is the sanitized one, Anthropic's has no system messages.
abbrev pub history_for : {M G : Type 0} → Texts → Builders M G → Client → List Message → List M
history_for texts build c history =
    let sanitized = sanitize_history_for_openai_compat texts history in
    if is_openai_like c
    then map build.message sanitized
    else map build.message (filter (λ m. not (is_system m)) sanitized)

and_false : (a : Bool) → (a && false) ≡ false
and_false true = refl
and_false false = refl

anthropic :
    (c : Client)
    → (reads_as_openai c || reads_as_anthropic c) ≡ true
    → is_openai_like c ≡ false
    → is_anthropic_like c ≡ true
anthropic c h e = ground arith

module _ {M G : Type 0} (texts : Texts) (build : Builders M G) where
  prepend-Restores :
      (history messages : List M) (kwargs : Kwargs M G)
      → kwargs.messages ≡ some messages
      → kwargs.input ≡ none
      → kwargs.instructions ≡ none
      → Restores history messages (prepend texts build history kwargs)
  unfolding prepend
  prepend-Restores history messages kwargs h i j = record {
    kwargs = record kwargs { messages = some (history ++ messages) };
    count = length history;
    returned = rw h refl;
    whole = refl;
    no_input = i;
    no_instructions = j;
    stored = drop-append history messages;
  }

  no_responses :
      (kwargs : Kwargs M G) (messages : List M)
      → kwargs.messages ≡ some messages
      → is_responses texts build kwargs ≡ false
  no_responses kwargs messages h = rw h (and_false _)

  -- Without input and instructions, the history that is put before the messages of a chat is left
  -- out again by the adapters of OpenAI and Anthropic: for a request with messages to OpenAI,
  -- LiteLLM, Anthropic, or Agno's OpenAI or Anthropic.
  pub inject_messages_by_provider-Restores :
      (c : Client) (kwargs : Kwargs M G) (messages : List M) (history : List Message)
      → kwargs.messages ≡ some messages
      → kwargs.input ≡ none
      → kwargs.instructions ≡ none
      → (reads_as_openai c || reads_as_anthropic c) ≡ true
      → Restores
          (history_for texts build c history)
          messages
          (inject_messages_by_provider texts build c kwargs history)
  unfolding inject_messages_by_provider
  inject_messages_by_provider-Restores c kwargs messages history h i j known =
      let sanitized = sanitize_history_for_openai_compat texts history in
      rw (no_responses kwargs messages h) (elim (Bool-cases (is_openai_like c)) [
        | inl e ↦ rw e (prepend-Restores (map build.message sanitized) messages kwargs h i j)
        | inr e ↦
            rw (e, anthropic c known e)
              (prepend-Restores (map build.message (filter (λ m. not (is_system m)) sanitized))
                messages kwargs h i j)
      ])
