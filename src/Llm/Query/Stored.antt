-- ===== src/Llm/Query/Stored.antt =====
-- What is stored of a request to the Responses API after a history was put before its input.
use memori.Prelude.{
  Option, none, some, List, [], ◌∷◌, ◌++◌, ◌≡◌, refl, ap, ◌∙◌, map, filter, length, not,
}
use memori.Sqlite.Conversation.{Message}
use memori.Embeddings.{drop}
use memori.Llm.{Texts}
use memori.Llm.Injection.{
  Kwargs, Builders, Input, text, items, InputItem, to_item, existing_input, normalize_input_history,
  is_system, sanitize_history_for_openai_compat,
}
use memori.Llm.Injection.Excluded.{drop-append}
use memori.Llm.Query.{responses_query, system_message, input_messages, item_messages}

module _ (texts : Texts) where
  item_messages-history :
      (history : List Message) (xs : List InputItem)
      → item_messages texts (map to_item history ++ xs) ≡ history ++ item_messages texts xs
  item_messages-history [] xs = refl
  item_messages-history (m ∷ history) xs = ap (λ l. m ∷ l) (item_messages-history history xs)

  item_messages-existing :
      (input : Option Input)
      → item_messages texts (existing_input input) ≡ input_messages texts input
  item_messages-existing none = refl
  item_messages-existing (some (text t)) = refl
  item_messages-existing (some (items xs)) = refl

-- The history that is injected for the Responses API.
abbrev pub injected : Texts → List Message → List Message
injected texts messages =
    filter (λ m. not (is_system m)) (sanitize_history_for_openai_compat texts messages)

-- What is stored of the request after the history was injected into it.
abbrev pub stored_query :
    {M G : Type 0} → Texts → Builders M G → Kwargs M G → List Message → List Message
stored_query texts build kwargs messages =
    let (kwargs', count) = normalize_input_history texts build kwargs messages in
    responses_query texts kwargs'.instructions kwargs'.input count

drop_short :
    {A : Type 0} (first : A) (front : List A) (last : A) (rest : List A)
    → drop (length (front ++ last ∷ [])) (first ∷ ((front ++ last ∷ []) ++ rest)) ≡ last ∷ rest
drop_short first [] last rest = refl
drop_short first (x ∷ front) last rest = drop_short x front last rest

module _ {M G : Type 0} (texts : Texts) (build : Builders M G) where
  stored_query-drop :
      (kwargs : Kwargs M G) (messages : List Message)
      → stored_query texts build kwargs messages
        ≡ drop (length (injected texts messages)) (
            system_message texts kwargs.instructions
            ++ (injected texts messages ++ input_messages texts kwargs.input))
  unfolding normalize_input_history responses_query
  stored_query-drop kwargs messages =
      rw
        (
          item_messages-history texts (injected texts messages) (existing_input kwargs.input),
          item_messages-existing texts kwargs.input,
        )
        refl

  -- If the request has no instructions of its own, what is stored of it is its own input.
  pub stored_query-input :
      (kwargs : Kwargs M G) (messages : List Message)
      → system_message texts kwargs.instructions ≡ []
      → stored_query texts build kwargs messages ≡ input_messages texts kwargs.input
  stored_query-input kwargs messages h =
      stored_query-drop kwargs messages
      ∙ rw h (drop-append (injected texts messages) (input_messages texts kwargs.input))

  -- If the request has instructions of its own, the last message of the history that was injected is
  -- stored once more, before the input.
  pub stored_query-repeats :
      (kwargs : Kwargs M G) (messages front : List Message) (system last : Message)
      → system_message texts kwargs.instructions ≡ system ∷ []
      → injected texts messages ≡ front ++ last ∷ []
      → stored_query texts build kwargs messages ≡ last ∷ input_messages texts kwargs.input
  stored_query-repeats kwargs messages front system last h split =
      stored_query-drop kwargs messages ∙ rw (h, split) (drop_short system front last _)
