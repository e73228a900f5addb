-- ===== src/Llm/UserQuery.antt =====
-- memori/llm/helpers/query_extraction.py: the user's query in the keyword arguments of a request,
-- taken as JSON; a protobuf request is the JSON of it.
use memori.Prelude.{String, Bool, false, Option, none, some, List, [], ◌∷◌, str_eq, if◌then◌else◌}
use mathlib.Core.List.{reverse}
use memori.Exec.{other, attribute_error, Result, ok, err}
use memori.Json.{Json, text, array, object, Fields, items, get}
use memori.Native.Values.{Values, is_true}
use memori.Llm.Query.{join_parts}

-- `v == s` for a value under a key
abbrev pub equals : Option Json → String → Bool
equals (some (text t)) s = str_eq t s
equals v s = false

abbrev pub text_in : Option Json → Option String
text_in (some (text t)) = some t
text_in v = none

abbrev add_part : Option String → List String → List String
add_part none parts = parts
add_part (some t) parts = t ∷ parts

abbrev pub part_text : Json → Option String
part_text (text t) = some t
part_text (object d) = text_in (get "text" d)
part_text v = none

abbrev texts_in : List Json → List String
texts_in [] = []
texts_in (p ∷ parts) = add_part (part_text p) (texts_in parts)

unfoldable pub extract_text_from_parts : List Json → String
extract_text_from_parts parts = join_parts (texts_in parts)

-- The entries of a list, and none of another value.
abbrev pub entries_of : Option Json → List Json
entries_of (some (array xs)) = items xs
entries_of v = []

-- What a user's message says: "" for a content that is neither a text nor a list.
abbrev pub content_of : Option Json → String
content_of (some (text t)) = t
content_of (some (array parts)) = extract_text_from_parts (items parts)
content_of v = ""

-- The messages from the last one on; an entry that is no dict has no `get`.
unfoldable pub query_in_messages : List Json → Result (Option String)
unfolding extract_text_from_parts
query_in_messages [] = ok none
query_in_messages (object d ∷ messages) =
    let rest = query_in_messages messages in
    if equals (get "role" d) "user" then ok (some (content_of (get "content" d))) else rest
query_in_messages (m ∷ messages) = err attribute_error

-- `if "messages" in kwargs and kwargs["messages"]:`, with the loop
abbrev pub messages_query : Values → Option Json → Result (Option String)
messages_query py none = ok none
messages_query py (some (array xs)) = query_in_messages (reverse (items xs))
messages_query py (some (text s)) = if str_eq s "" then ok none else err attribute_error
messages_query py (some (object d)) = if is_true py (object d) then err attribute_error else ok none
messages_query py (some v) = if is_true py v then err other else ok none

abbrev first_text : Option String → Option String → Option String
first_text none t = t
first_text (some s) t = some s

abbrev input_text_in : Json → Option String
input_text_in (object d) =
    if equals (get "type" d) "input_text" then text_or_empty (get "text" d) else none
  where
    text_or_empty : Option Json → Option String
    text_or_empty none = some ""
    text_or_empty (some v) = text_in (some v)
input_text_in (text t) = some t
input_text_in v = none

abbrev first_input_text : List Json → Option String
first_input_text [] = none
first_input_text (c ∷ content) = first_text (input_text_in c) (first_input_text content)

abbrev input_content : Option Json → Option String
input_content none = some ""
input_content (some (text t)) = some t
input_content (some (array content)) = first_input_text (items content)
input_content (some v) = none

abbrev user_input : Json → Option String
user_input (object d) =
    if equals (get "role" d) "user" then input_content (get "content" d) else none
user_input v = none

unfoldable pub query_in_items : List Json → Option String
query_in_items [] = none
query_in_items (x ∷ xs) = first_text (user_input x) (query_in_items xs)

abbrev pub query_in_input : Option Json → Option String
query_in_input (some (text t)) = some t
query_in_input (some (array xs)) = query_in_items (reverse (items xs))
query_in_input v = none

abbrev non_empty : String → Option String
non_empty t = if str_eq t "" then none else some t

-- An entry of `contents`, whose `parts` are a list.
abbrev content_query : Json → Option String
content_query (text t) = some t
content_query (object d) =
    if equals (get "role" d) "user"
    then non_empty (extract_text_from_parts (entries_of (get "parts" d)))
    else none
content_query v = none

abbrev content_queries : List Json → Option String
content_queries [] = none
content_queries (x ∷ xs) = first_text (content_query x) (content_queries xs)

unfoldable pub extract_from_contents : Option Json → String
unfolding extract_text_from_parts
extract_from_contents (some (text t)) = t
extract_from_contents (some (array xs)) = elim (content_queries (reverse (items xs))) [
  | none ↦ ""
  | some t ↦ t
]
extract_from_contents v = ""

-- The contents of a protobuf request, as the JSON of it; what is no dict raises, which is caught.
abbrev pub request_query : Option Json → String
request_query (some (object d)) = extract_from_contents (get "contents" d)
request_query v = ""

abbrev or_request : String → Option Json → String
or_request t request = if str_eq t "" then request_query request else t

abbrev or_contents : Option String → Fields → String
or_contents (some t) kwargs = t
or_contents none kwargs =
    or_request (extract_from_contents (get "contents" kwargs)) (get "request" kwargs)

abbrev or_others : Result (Option String) → Fields → Result String
or_others (err e) kwargs = err e
or_others (ok (some t)) kwargs = ok t
or_others (ok none) kwargs = ok (or_contents (query_in_input (get "input" kwargs)) kwargs)

unfoldable pub extract_user_query : Values → Fields → Result String
unfolding query_in_messages query_in_items extract_from_contents
extract_user_query py kwargs = or_others (messages_query py (get "messages" kwargs)) kwargs
