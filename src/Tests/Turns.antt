-- ===== src/Tests/Turns.antt =====
-- Turns of a conversation: what is sent, and what is stored.
use memori.Prelude.{String, none, some, List, [], ◌∷◌, ◌≡◌, refl, All, str_eq, arith}
use memori.Sqlite.Conversation.{Message}
use memori.Llm.{Client, Texts}
use memori.Llm.Injection.{
  Kwargs, Builders, text, inject_messages_by_provider, sanitize_history_for_openai_compat,
}
use memori.Llm.Injection.Clean.{IsClean, sanitize_history_for_openai_compat-IsClean}
use memori.Llm.Injection.Excluded.{history_for, Restores, inject_messages_by_provider-Restores}
use memori.Exec.{ok}
use memori.Conn.{execute}
use memori.Memory.Config.{empty_cache}
use memori.Sqlite.Conversation.{read_messages}
use memori.Llm.Query.{chat_query}
use memori.Llm.History.{Invoke, inject_conversation_messages}
use memori.Llm.History.Stale.{counted, inject_conversation_messages-stale}
use memori.Tests.{calm, opened, config}
use memori.Llm.Query.Stored.{stored_query, stored_query-repeats}

abbrev texts : Texts
texts = record { is_blank = λ s. str_eq s ""; before_context = λ s. none }

abbrev say : String → String → Message
say role content = record { role = role; content = content }

abbrev build : Builders Message Message
build = record {
  message = λ m. m;
  user = say "user";
  assistant = say "assistant";
  google = λ content role. say role content;
}

abbrev history : List Message
history = say "user" "hello" ∷ say "assistant" "" ∷ say "tool" "7" ∷ say "model" "hi" ∷ []

sanitize_history_for_openai_compat-IsClean_example :
    All (IsClean texts) (sanitize_history_for_openai_compat texts history)
sanitize_history_for_openai_compat-IsClean_example =
    sanitize_history_for_openai_compat-IsClean texts history (refl, (refl, (refl, (refl, tt))))

abbrev question : List Message
question = say "user" "and now?" ∷ []

abbrev chat : Kwargs Message Message
chat = record {
  messages = some question;
  input = none;
  instructions = none;
  contents = none;
  request = none;
}

abbrev openai : Client
openai = record { provider = none; title = some "openai" }

inject_messages_by_provider-Restores_example :
    Restores
      (history_for texts build openai history)
      question
      (inject_messages_by_provider texts build openai chat history)
inject_messages_by_provider-Restores_example =
    inject_messages_by_provider-Restores texts build openai chat question history refl refl refl
      refl

abbrev response : Kwargs Message Message
response = record chat { messages = none; input = some (text "and now?") }

abbrev instructed : Kwargs Message Message
instructed = record response { instructions = some "be brief" }

abbrev cleaned : List Message
cleaned = say "user" "hello" ∷ say "assistant" "hi" ∷ []

stored_query-repeats_example :
    stored_query texts build instructed cleaned ≡ say "assistant" "hi" ∷ question
unfolding sanitize_history_for_openai_compat
stored_query-repeats_example =
    stored_query-repeats texts build instructed cleaned (say "user" "hello" ∷ [])
      (say "system" "be brief") (say "assistant" "hi") refl refl

-- An empty message of the role "model" comes out as an empty one of an assistant.
empty_model_passes :
    sanitize_history_for_openai_compat texts (say "model" "" ∷ []) ≡ say "assistant" "" ∷ []
unfolding sanitize_history_for_openai_compat
empty_model_passes = refl

-- A new session: its conversation has no messages, but four were injected in the one before.
abbrev renewed : Invoke
renewed = record {
  app = record {
    conn = opened;
    cache = record empty_cache { session_id = some 1; conversation_id = some 1 };
  };
  injected_message_count = 4;
  cloud_conversation_messages = [];
}

inject_conversation_messages-stale_example :
    let r = inject_conversation_messages calm config texts build openai chat renewed in
    (r.0 ≡ ok chat) × (counted r ≡ 4) × (chat_query chat.messages (counted r) ≡ [])
unfolding read_messages execute
inject_conversation_messages-stale_example =
    inject_conversation_messages-stale calm config texts build openai chat question 1 renewed refl
      refl refl refl refl (omega arith)
