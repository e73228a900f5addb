-- ===== src/Llm/RecallInjection/Asks.antt =====
-- memori/llm/pipelines/recall_injection.py: which changes of a request leave the query that it asks.
use mathlib.Core.List.{reverse, reverse-cons}
use memori.Prelude.{
  String, true, false, Option, none, some, List, [], ◌∷◌, ◌++◌, ◌≡◌, refl, ap, arith, str_eq,
  eq_iff,
}
use memori.Exec.{Result, ok, err}
use memori.Json.{Json, null, boolean, number, text, array, object, Fields, get, put}
use memori.Utils.Merge.Keys.{get-put}
use memori.Native.Values as Native
use memori.Native.Values.{is_true}
use memori.Llm.UserQuery.{
  equals, request_query, messages_query, query_in_messages, extract_user_query,
}
use memori.Llm.RecallInjection.Placed.{and_put}

-- A system message says nothing of the query, where it stands first.
query_in_messages-system :
    (d : Fields) (ms : List Json)
    → equals (get "role" d) "user" ≡ false
    → query_in_messages (ms ++ object d ∷ []) ≡ query_in_messages ms
unfolding query_in_messages
query_in_messages-system d [] h = rw h refl
query_in_messages-system d (object e ∷ ms) h = rw (query_in_messages-system d ms h) refl
query_in_messages-system d (null ∷ ms) h = refl
query_in_messages-system d (boolean b ∷ ms) h = refl
query_in_messages-system d (number n ∷ ms) h = refl
query_in_messages-system d (text s ∷ ms) h = refl
query_in_messages-system d (array xs ∷ ms) h = refl

pub reversed_query-system :
    (d : Fields) (ms : List Json)
    → equals (get "role" d) "user" ≡ false
    → query_in_messages (reverse (object d ∷ ms)) ≡ query_in_messages (reverse ms)
reversed_query-system d ms h =
    rw (reverse-cons (object d) ms) (query_in_messages-system d (reverse ms) h)

-- A role that is "system" is not "user".
pub system_role : (role : Option Json) → equals role "system" ≡ true → equals role "user" ≡ false
system_role none h = cc
system_role (some null) h = cc
system_role (some (boolean b)) h = cc
system_role (some (number n)) h = cc
system_role (some (array xs)) h = cc
system_role (some (object d)) h = cc
system_role (some (text t)) h = rw ((eq_iff t "system").0 h) refl

module _ (py : Native.Values) where
  -- Two requests that agree on the keys that the query is read from.
  pub record Asks (kwargs kwargs' : Fields) : Type 0 where
    pub messages :
        messages_query py (get "messages" kwargs') ≡ messages_query py (get "messages" kwargs)
    pub input : get "input" kwargs' ≡ get "input" kwargs
    pub contents : get "contents" kwargs' ≡ get "contents" kwargs
    pub request : request_query (get "request" kwargs') ≡ request_query (get "request" kwargs)

  pub Asks-query :
      (kwargs kwargs' : Fields)
      → Asks kwargs kwargs'
      → extract_user_query py kwargs' ≡ extract_user_query py kwargs
  unfolding extract_user_query
  Asks-query kwargs kwargs' h = ground (arith, h.messages, h.input, h.contents, h.request)

  -- A key that the query is not read from.
  pub Asks-put :
      (k : String) (v : Json) (kwargs : Fields)
      → str_eq k "messages" ≡ false
      → str_eq k "input" ≡ false
      → str_eq k "contents" ≡ false
      → str_eq k "request" ≡ false
      → Asks kwargs (put k v kwargs)
  Asks-put k v kwargs m i c r = record {
    messages = rw (get-put "messages" k v kwargs, m) refl;
    input = rw (get-put "input" k v kwargs, i) refl;
    contents = rw (get-put "contents" k v kwargs, c) refl;
    request = rw (get-put "request" k v kwargs, r) refl;
  }

  pub Asks-put_messages :
      (v : Json) (kwargs : Fields)
      → messages_query py (some v) ≡ messages_query py (get "messages" kwargs)
      → Asks kwargs (put "messages" v kwargs)
  Asks-put_messages v kwargs h = record {
    messages = rw (get-put "messages" "messages" v kwargs) h;
    input = get-put "input" "messages" v kwargs;
    contents = get-put "contents" "messages" v kwargs;
    request = ap request_query (get-put "request" "messages" v kwargs);
  }

  pub Asks-refl : (kwargs : Fields) → Asks kwargs kwargs
  Asks-refl kwargs = record { messages = refl; input = refl; contents = refl; request = refl }

  abbrev pub AsksIfOk : Fields → Result Fields → Type 0
  AsksIfOk kwargs (ok kwargs') = Asks kwargs kwargs'
  AsksIfOk kwargs (err e) = Unit

  pub AsksIfOk-and_put :
      (k : String) (kwargs : Fields) (r : Result Json)
      → str_eq k "messages" ≡ false
      → str_eq k "input" ≡ false
      → str_eq k "contents" ≡ false
      → str_eq k "request" ≡ false
      → AsksIfOk kwargs (and_put k kwargs r)
  AsksIfOk-and_put k kwargs (ok v) m i c r = Asks-put k v kwargs m i c r
  AsksIfOk-and_put k kwargs (err e) m i c r = tt
