-- ===== src/Llm/Injection.antt =====
-- memori/llm/pipelines/conversation_injection.py: the history of a conversation is put before the
-- messages of a request.
pub mod Clean
pub mod Excluded
use memori.Prelude.{
  ℕ, String, Bool, true, false, Option, none, some, List, [], ◌∷◌, ◌++◌, ◌⊎◌, inl, inr, map, filter,
  length, ◌&&◌, ◌||◌, not, str_eq, if◌then◌else◌,
}
use memori.Exec.{Result, ok, err, not_implemented, other}
use memori.Sqlite.Conversation.{Message}
use memori.Llm.{
  Client, Texts, llm_is_openai, llm_is_litellm, agno_is_openai, agno_is_xai, llm_is_anthropic,
  llm_is_bedrock, agno_is_anthropic, llm_is_xai, llm_is_google, agno_is_google,
}

module _ (texts : Texts) where
  abbrev pub is_dropped : Message → Bool
  is_dropped m = str_eq m.role "tool" || (str_eq m.role "assistant" && texts.is_blank m.content)

  abbrev pub rename_role : Message → Message
  rename_role m = record m { role = if str_eq m.role "model" then "assistant" else m.role }

  unfoldable pub sanitize_history_for_openai_compat : List Message → List Message
  sanitize_history_for_openai_compat [] = []
  sanitize_history_for_openai_compat (m ∷ messages) =
      let rest = sanitize_history_for_openai_compat messages in
      if is_dropped m then rest else rename_role m ∷ rest

abbrev pub is_system : Message → Bool
is_system m = str_eq m.role "system"

-- An entry of `input` in the Responses API, as its adapter tells them apart: a dict with a role
-- ("user" if it has none) and a content, or anything else.
pub data Part : Type 0 where
  input_text : String → Part
  raw_text : String → Part
  other_part : Part

pub data Content : Type 0 where
  plain : String → Content
  parts : List Part → Content
  no_content : Content

pub data InputItem : Type 0 where
  item : String → Content → InputItem
  other_item : InputItem

pub data Input : Type 0 where
  text : String → Input
  items : List InputItem → Input

abbrev pub to_item : Message → InputItem
to_item m = item m.role (plain m.content)

-- `existing_input`
abbrev pub existing_input : Option Input → List InputItem
existing_input none = []
existing_input (some (text t)) = item "user" (plain t) ∷ []
existing_input (some (items xs)) = xs

-- The keyword arguments of a request. `M` is a message of a chat, `G` an entry of Google's
-- `contents`; `request` has the contents of a protobuf request.
pub record Kwargs (M G : Type 0) : Type 0 where
  pub messages : Option (List M)
  pub input : Option Input
  pub instructions : Option String
  pub contents : Option (String ⊎ List (String ⊎ G))
  pub request : Option (List G)

-- What builds messages: a dict, `assistant` and `user` of xai_sdk, and an entry for Google.
pub record Builders (M G : Type 0) : Type 0 where
  pub message : Message → M
  pub user : String → M
  pub assistant : String → M
  pub google : String → String → G

module _ {A : Type 0} where
  abbrev pub is_set : Option A → Bool
  is_set none = false
  is_set (some a) = true

-- The tests of the branches that share a body.
abbrev pub is_openai_like : Client → Bool
is_openai_like c = llm_is_openai c || (llm_is_litellm c || (agno_is_openai c || agno_is_xai c))

abbrev pub is_anthropic_like : Client → Bool
is_anthropic_like c = llm_is_anthropic c || (llm_is_bedrock c || agno_is_anthropic c)

module _ {M G : Type 0} (texts : Texts) (build : Builders M G) where
  unfoldable pub normalize_input_history : Kwargs M G → List Message → Kwargs M G × ℕ
  unfolding sanitize_history_for_openai_compat
  normalize_input_history kwargs messages =
      let history =
        filter (λ m. not (is_system m)) (sanitize_history_for_openai_compat texts messages) in
      (
        record kwargs { input = some (items (map to_item history ++ existing_input kwargs.input)) },
        length history,
      )

  abbrev pub normalize_item : String ⊎ G → G
  normalize_item (inl t) = build.google t "user"
  normalize_item (inr g) = g

  -- `kwargs.get("contents", [])`
  abbrev pub normalize_google_contents : Option (String ⊎ List (String ⊎ G)) → List G
  normalize_google_contents none = []
  normalize_google_contents (some (inl t)) = build.google t "user" ∷ []
  normalize_google_contents (some (inr gs)) = map normalize_item gs

  -- `kwargs["messages"] = history + kwargs["messages"]`, or a KeyError
  unfoldable pub prepend : List M → Kwargs M G → Result (Kwargs M G × ℕ)
  prepend history kwargs = go kwargs.messages
    where
      go : Option (List M) → Result (Kwargs M G × ℕ)
      go none = err other
      go (some messages) =
          ok (record kwargs { messages = some (history ++ messages) }, length history)

  unfoldable pub xai_messages : List Message → List M
  xai_messages [] = []
  xai_messages (m ∷ messages) =
      let rest = xai_messages messages in
      if str_eq m.role "user"
      then build.user m.content ∷ rest
      else if str_eq m.role "assistant"
      then build.assistant m.content ∷ rest
      else rest

  abbrev pub google_content : Message → G
  google_content m = build.google m.content (if str_eq m.role "assistant" then "model" else m.role)

  unfoldable pub inject_google : List G → Kwargs M G → Kwargs M G × ℕ
  inject_google history kwargs = (go kwargs.request, length history)
    where
      go : Option (List G) → Kwargs M G
      go (some gs) = record kwargs { request = some (history ++ gs) }
      go none = record kwargs {
        contents = some (inr (map inr (history ++ normalize_google_contents kwargs.contents)));
      }

  -- `("input" in kwargs or "instructions" in kwargs) and "messages" not in kwargs`
  abbrev pub is_responses : Kwargs M G → Bool
  is_responses kwargs =
      (is_set kwargs.input || is_set kwargs.instructions) && not (is_set kwargs.messages)

  unfoldable pub inject_messages_by_provider :
      Client → Kwargs M G → List Message → Result (Kwargs M G × ℕ)
  unfolding sanitize_history_for_openai_compat
  inject_messages_by_provider c kwargs messages =
      let sanitized = sanitize_history_for_openai_compat texts messages in
      if is_responses kwargs
      then ok (normalize_input_history kwargs messages)
      else if is_openai_like c
      then prepend (map build.message sanitized) kwargs
      else if is_anthropic_like c
      then prepend (map build.message (filter (λ m. not (is_system m)) sanitized)) kwargs
      else if llm_is_xai c
      then prepend (xai_messages messages) kwargs
      else if llm_is_google c || agno_is_google c
      then ok (inject_google (map google_content messages) kwargs)
      else err not_implemented
