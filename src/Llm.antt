-- ===== src/Llm.antt =====
-- memori/llm: which client a request is for (_utils.py, _constants.py), and what Python's `str` does
-- to texts there.
pub mod Injection
pub mod Query
pub mod History
pub mod UserQuery
pub mod RecallInjection
use memori.Prelude.{String, Bool, true, false, Option, none, some, ◌&&◌, ◌||◌, str_eq}

-- `config.framework.provider` and `config.llm.provider`
pub record Client : Type 0 where
  pub provider : Option String
  pub title : Option String

abbrev pub is_text : Option String → String → Bool
is_text none text = false
is_text (some s) text = str_eq s text

abbrev pub provider_is_agno : Client → Bool
provider_is_agno c = is_text c.provider "agno"

abbrev pub provider_is_langchain : Client → Bool
provider_is_langchain c = is_text c.provider "langchain"

abbrev pub llm_is_anthropic : Client → Bool
llm_is_anthropic c = is_text c.title "anthropic"

abbrev pub llm_is_bedrock : Client → Bool
llm_is_bedrock c = provider_is_langchain c && is_text c.title "chatbedrock"

abbrev pub llm_is_google : Client → Bool
llm_is_google c =
    is_text c.title "google"
    || (provider_is_langchain c
        && (is_text c.title "chatgooglegenai" || is_text c.title "chatvertexai"))

abbrev pub llm_is_openai : Client → Bool
llm_is_openai c =
    is_text c.title "openai"
    || (is_text c.title "openai_responses"
        || (provider_is_langchain c && is_text c.title "chatopenai"))

abbrev pub llm_is_xai : Client → Bool
llm_is_xai c = is_text c.title "xai"

abbrev pub llm_is_litellm : Client → Bool
llm_is_litellm c = is_text c.title "litellm"

abbrev pub agno_is_anthropic : Client → Bool
agno_is_anthropic c = provider_is_agno c && is_text c.title "anthropic"

abbrev pub agno_is_google : Client → Bool
agno_is_google c = provider_is_agno c && is_text c.title "google"

abbrev pub agno_is_openai : Client → Bool
agno_is_openai c = provider_is_agno c && is_text c.title "openai"

abbrev pub agno_is_xai : Client → Bool
agno_is_xai c = provider_is_agno c && is_text c.title "xai"

-- `not s.strip()`; `s.split("<memori_context>")[0].strip()` where `s` has that mark
pub record Texts : Type 0 where
  pub is_blank : String → Bool
  pub before_context : String → Option String
