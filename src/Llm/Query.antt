-- ===== src/Llm/Query.antt =====
-- memori/llm: what of a request is stored. `format_kwargs` notes how many messages were injected,
-- the OpenAI adapter reads the messages of the request, and `_exclude_injected_messages` leaves out as
-- many from the front.
pub mod Stored
use Prim.Native.String as NativeString
use memori.Prelude.{
  ℕ, String, Bool, true, false, Option, none, some, List, [], ◌∷◌, ◌++◌, not, str_eq, if◌then◌else◌,
}
use memori.Sqlite.Conversation.{Message}
use memori.Embeddings.{drop}
use memori.Llm.{Texts}
use memori.Llm.Injection.{
  Part, input_text, raw_text, other_part, Content, plain, parts, no_content, InputItem, item,
  other_item, Input, text, items,
}

-- `messages[injected_count:]`; what the messages are that it is called with is the adapter's.
abbrev pub exclude_injected_messages : {A : Type 0} → ℕ → List A → List A
exclude_injected_messages injected_count messages = drop injected_count messages

abbrev pub text_parts : List Part → List String
text_parts [] = []
text_parts (input_text t ∷ ps) = t ∷ text_parts ps
text_parts (raw_text t ∷ ps) = t ∷ text_parts ps
text_parts (other_part ∷ ps) = text_parts ps

-- `" ".join(text_parts)`
abbrev pub join_parts : List String → String
join_parts [] = ""
join_parts (t ∷ []) = t
join_parts (t ∷ u ∷ ts) = NativeString.◌++◌ t (NativeString.◌++◌ " " (join_parts (u ∷ ts)))

-- `get_formatted_query` of the adapters of OpenAI, without `input` and `instructions`, and of
-- Anthropic, whose requests have neither.
abbrev pub chat_query : {M : Type 0} → Option (List M) → ℕ → List M
chat_query none injected_count = []
chat_query (some messages) injected_count = exclude_injected_messages injected_count messages

module _ (texts : Texts) where
  abbrev pub clean_instructions : String → String
  clean_instructions t = elim (texts.before_context t) [ none ↦ t | some s ↦ s ]

  -- `if clean`, where the instructions are set
  abbrev pub system_message : Option String → List Message
  system_message none = []
  system_message (some t) =
      let clean = clean_instructions t in
      if str_eq t ""
      then []
      else if str_eq clean ""
      then []
      else record { role = "system"; content = clean } ∷ []

  abbrev pub item_message : InputItem → List Message
  item_message (item role (plain t)) = record { role = role; content = t } ∷ []
  item_message (item role (parts ps)) =
      let t = join_parts (text_parts ps) in
      if texts.is_blank t then [] else record { role = role; content = t } ∷ []
  item_message (item role no_content) = []
  item_message other_item = []

  abbrev pub item_messages : List InputItem → List Message
  item_messages [] = []
  item_messages (x ∷ xs) = item_message x ++ item_messages xs

  abbrev pub input_messages : Option Input → List Message
  input_messages none = []
  input_messages (some (text t)) = record { role = "user"; content = t } ∷ []
  input_messages (some (items xs)) = item_messages xs

  -- `get_formatted_query` of a request with `input` or `instructions`
  unfoldable pub responses_query : Option String → Option Input → ℕ → List Message
  responses_query instructions input injected_count =
      exclude_injected_messages injected_count (system_message instructions ++ input_messages input)
