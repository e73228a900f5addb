-- ===== src/Tests/Recalled.antt =====
-- What the cloud's recall answers, and what is put into a request of it, at concrete inputs.
use memori.Prelude.{ℕ, false, Option, none, some, [], ◌∷◌, ◌==◌, leb, String, true, ◌≡◌, refl}
use memori.Json.{
  Json, null, number, text, array, object, Items, nil, cons, Fields, end, field, extend,
}
use memori.Exec.{ok, pure}
use memori.Native.Values as Native
use memori.Tests.{calm, opened}
use memori.Memory.Config.{Config}
use memori.Llm.{Client}
use memori.Llm.UserQuery.{
  extract_user_query, query_in_messages, query_in_items, extract_from_contents,
}
use memori.Llm.RecallInjection.{Formats, Invoke, Sources, recall_context, inject_recalled_facts}
use memori.Llm.RecallInjection.Placed.{place_context}
use memori.Llm.RecallInjection.Kept.{inject_recalled_facts-query}
use memori.CloudRecall.Summaries.{collect_cloud_summaries_from_facts}
use memori.CloudRecall.Summaries.Contents.{Collects, collect_cloud_summaries_from_facts-Collects}
use memori.CloudRecall.{Values, search_cloud_facts, score_for_recall_threshold}
use memori.CloudRecall.Parsed.{AreRelevant, search_cloud_facts-AreRelevant}

abbrev float_of_number : Json → Option ℕ
float_of_number (number n) = some n
float_of_number v = none

abbrev values : Values
values = record {
  float_of = float_of_number;
  one = 100;
  zero_float = 0;
  at_least = λ a b. leb b a;
  same_key = λ a b. elim a [ number n ↦ elim b [ number m ↦ n == m | _ ↦ false ] | _ ↦ false ];
  strip = λ s. s;
}

abbrev summary : String → Json
summary s = object (field "content" (text s) (field "fact_id" (number 1) end))

abbrev fact : ℕ → Json
fact score = object (
    field "id" (number 1) (
      field "rank_score" (number score)
        (field "summaries" (array (cons (summary "a") (cons null (cons (summary "a") nil)))) end)))

abbrev answer : Json
answer = object (
    field "facts" (array (cons (fact 50) (cons null (cons (fact 5) (cons (text "f") nil)))))
      (field "summaries" (array (cons (summary "b") nil)) end))

search_cloud_facts-AreRelevant_example :
    AreRelevant values 10 (search_cloud_facts values 10 (some "ann") answer)
search_cloud_facts-AreRelevant_example =
    search_cloud_facts-AreRelevant values 10 (some "ann") answer

collect_cloud_summaries_from_facts-Collects_example :
    let facts = fact 50 ∷ fact 5 ∷ [] in
    Collects values facts (collect_cloud_summaries_from_facts values facts)
collect_cloud_summaries_from_facts-Collects_example =
    collect_cloud_summaries_from_facts-Collects values (fact 50 ∷ fact 5 ∷ [])

abbrev python : Native.Values
python = record {
  repr = λ v. "?";
  strip = λ s. s;
  is_digit = λ s. false;
  int_of = λ s. none;
  int_number = λ n. some n;
  is_zero = λ n. n == 0;
  float_of = λ v. none;
}

abbrev formats : Formats
formats = record { cloud = values; native = python; date = λ d. none }

abbrev in_cloud : Config
in_cloud = record {
  cloud = true;
  entity_id = some "ann";
  process_id = none;
  session_id = "s";
  session_timeout_minutes = 30;
  request_num_backoff = 5;
  recall_facts_limit = 5;
  recall_embeddings_limit = 1000;
  has_storage = false;
  has_adapter = false;
  has_sqlalchemy = false;
}

abbrev sources : Sources
sources = record { cloud_answer = λ q. ok answer; retrieve_facts = λ q i. pure [] }

abbrev openai : Client
openai = record { provider = none; title = some "openai" }

abbrev asked : Items → Fields
asked before =
    field "messages"
      (array (
        extend before
          (cons (object (field "role" (text "user") (field "content" (text "and now?") end))) nil)))
      end

-- The fact above the threshold, with the summary of the answer.
abbrev recalled : Json
recalled = object (
    field "id" (number 1) (
      field "rank_score" (number 50)
        (field "summaries" (array (cons (summary "a") (cons (summary "b") nil))) end)))

abbrev context : String
context = recall_context formats (recalled ∷ text "f" ∷ [])

abbrev told : Items
told = cons (object (field "role" (text "system") (field "content" (text context) end))) nil

abbrev invoke : Invoke
invoke = record { conn = opened; cloud_conversation_messages = []; cloud_summaries = [] }

inject_recalled_facts-query_example :
    extract_user_query python (asked told) ≡ extract_user_query python (asked nil)
unfolding inject_recalled_facts extract_user_query query_in_messages query_in_items
    extract_from_contents place_context recall_context search_cloud_facts score_for_recall_threshold
inject_recalled_facts-query_example =
    inject_recalled_facts-query formats calm in_cloud 10 sources openai (asked nil) (asked told)
      invoke injected
  where
    injected :
        (inject_recalled_facts formats calm in_cloud 10 sources openai (asked nil) invoke).0
        ≡ ok (asked told)
    injected = refl
