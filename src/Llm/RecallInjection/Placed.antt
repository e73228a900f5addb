-- ===== src/Llm/RecallInjection/Placed.antt =====
-- Where a text of recalled facts stands in a request: the end of memori/llm/pipelines/recall_injection.py,
-- and memori/llm/helpers/google_system_instruction.py. A request's keyword arguments are JSON; a
-- protobuf request is the JSON of it.
use Prim.Native.String.{◌++◌ as concat}
use memori.Prelude.{String, Bool, true, false, not, Option, none, some, ◌||◌, ◌&&◌, if◌then◌else◌}
use memori.Exec.{other, attribute_error, Result, ok, err}
use memori.Json.{Json, null, text, array, object, Items, nil, cons, Fields, end, field, get, put}
use memori.Native.Values as Native
use memori.Native.Values.{is_true}
use memori.Llm.{Client, llm_is_anthropic, llm_is_bedrock, llm_is_google, agno_is_google}
use memori.Llm.UserQuery.{equals}

abbrev pub and_put : String → Fields → Result Json → Result Fields
and_put key d (ok v) = ok (put key v d)
and_put key d (err e) = err e

abbrev pub and_object : Result Fields → Result Json
and_object (ok d) = ok (object d)
and_object (err e) = err e

abbrev pub and_first : Items → Result Json → Result Json
and_first xs (ok v) = ok (array (cons v xs))
and_first xs (err e) = err e

-- The text is two line breaks and `context`, which `lstrip("\n")` leaves.
module _ (py : Native.Values) (context : String) where
  abbrev recall_context : String
  recall_context = concat "\n\n" context

  abbrev part : Json
  part = object (field "text" (text context) end)

  -- `existing + recall_context`, with what a missing key stands for
  abbrev pub extended : Option Json → Result Json
  extended none = ok (text recall_context)
  extended (some (text s)) = ok (text (concat s recall_context))
  extended (some v) = err other

  -- `d["text"] += recall_context`, where the value is `v`
  abbrev extended_text : Fields → Json → Result Json
  extended_text d v = and_object (and_put "text" d (extended (some v)))

  abbrev part_with : Fields → Items → Option Json → Result Json
  part_with d xs none = ok (array (cons part (cons (object d) xs)))
  part_with d xs (some v) = and_first xs (extended_text d v)

  unfoldable append_to_list : Items → Result Json
  append_to_list nil = ok (array (cons part nil))
  append_to_list (cons (object d) xs) = part_with d xs (get "text" d)
  append_to_list (cons (text s) xs) = ok (array (cons (text (concat s recall_context)) xs))
  append_to_list (cons v xs) = ok (array (cons part (cons v xs)))

  -- The first of the parts, when there is one that has a text, else a part before them.
  abbrev extended_parts : Json → Result Json
  extended_parts (array nil) = ok (array (cons part nil))
  extended_parts (array (cons (object d) xs)) = part_with d xs (get "text" d)
  extended_parts (array (cons v xs)) = ok (array (cons part (cons v xs)))
  extended_parts (text s) =
      if is_true py (text s) then err attribute_error else ok (array (cons part nil))
  extended_parts v = if is_true py v then err other else ok (array (cons part nil))

  abbrev text_or_replaced : Fields → Option Json → Result Json
  text_or_replaced d none = ok (text context)
  text_or_replaced d (some v) = extended_text d v

  abbrev content_with : Fields → Option Json → Result Json
  content_with d none = text_or_replaced d (get "text" d)
  content_with d (some parts) = and_object (and_put "parts" d (extended_parts parts))

  unfoldable append_to_content_dict : Fields → Result Json
  append_to_content_dict d = content_with d (get "parts" d)

  abbrev instruction_with : Json → Result Json
  instruction_with (text s) = ok (text (concat s recall_context))
  instruction_with (array xs) = append_to_list xs
  instruction_with (object d) = append_to_content_dict d
  instruction_with v = ok (text context)

  abbrev instruction : Option Json → Result Json
  instruction none = ok (text context)
  instruction (some v) = if is_true py v then instruction_with v else ok (text context)

  unfoldable append_to_google_system_instruction_dict : Fields → Result Fields
  unfolding append_to_list append_to_content_dict
  append_to_google_system_instruction_dict config =
      and_put "system_instruction" config (instruction (get "system_instruction" config))

  -- `parts` of a request's instruction, which protobuf gives as a list: its first part, if that has
  -- a text, or one new part
  abbrev request_parts : Option Json → Result Json
  request_parts (some (array (cons (object d) xs))) = elim (get "text" d) [
    | none ↦ ok (array (cons part nil))
    | some v ↦ and_first xs (extended_text d v)
  ]
  request_parts parts = ok (array (cons part nil))

  abbrev pub request_instruction : Option Json → Result Json
  request_instruction none = ok (object (field "parts" (array (cons part nil)) end))
  request_instruction (some (object d)) =
      and_object (and_put "parts" d (request_parts (get "parts" d)))
  request_instruction (some v) = err attribute_error

  abbrev pub request_with : Json → Result Json
  request_with (object d) =
      and_object (and_put "systemInstruction" d (request_instruction (get "systemInstruction" d)))
  request_with v = err attribute_error

  -- A value of JSON that is no dict has no attribute `system_instruction`, and is left as it is.
  unfoldable pub config_with : Fields → Option Json → Result Fields
  unfolding append_to_google_system_instruction_dict
  config_with kwargs (some (object config)) =
      and_put "config" kwargs (and_object (append_to_google_system_instruction_dict config))
  config_with kwargs (some null) =
      ok (put "config" (object (field "system_instruction" (text context) end)) kwargs)
  config_with kwargs (some v) = ok kwargs
  config_with kwargs none =
      ok (put "config" (object (field "system_instruction" (text context) end)) kwargs)

  abbrev pub google_with : Fields → Option Json → Result Fields
  google_with kwargs (some request) = and_put "request" kwargs (request_with request)
  google_with kwargs none = config_with kwargs (get "config" kwargs)

  unfoldable pub inject_google_system_instruction : Fields → Result Fields
  unfolding config_with
  inject_google_system_instruction kwargs = google_with kwargs (get "request" kwargs)

  abbrev pub context_message : Json
  context_message = object (field "role" (text "system") (field "content" (text context) end))

  abbrev pub extended_content : Fields → Option Json → Result Json
  extended_content d none = err other
  extended_content d (some v) = and_object (and_put "content" d (extended (some v)))

  -- The value of `messages`: not a list, it raises where it is asked for its first entry or to insert.
  abbrev pub messages_with : Json → Result Json
  messages_with (array nil) = ok (array (cons context_message nil))
  messages_with (array (cons (object d) xs)) =
      if equals (get "role" d) "system"
      then and_first xs (extended_content d (get "content" d))
      else ok (array (cons context_message (cons (object d) xs)))
  messages_with (array (cons v xs)) = err attribute_error
  messages_with (text s) = err attribute_error
  messages_with v = if is_true py v then err other else err attribute_error

  -- Without the key, the message goes to a list that is dropped.
  abbrev pub in_messages : Fields → Option Json → Result Fields
  in_messages kwargs none = ok kwargs
  in_messages kwargs (some v) = and_put "messages" kwargs (messages_with v)

  -- `kwargs.get("instructions", "") or ""`
  abbrev instructions : Option Json → Result Json
  instructions none = extended none
  instructions (some v) = if is_true py v then extended (some v) else extended none

  abbrev has_key : String → Fields → Bool
  has_key key d = elim (get key d) [ none ↦ false | some _ ↦ true ]

  -- The branches on the client, from `if llm_is_anthropic(` on.
  unfoldable pub place_context : Client → Fields → Result Fields
  unfolding inject_google_system_instruction
  place_context client kwargs =
      if llm_is_anthropic client || llm_is_bedrock client
      then and_put "system" kwargs (extended (get "system" kwargs))
      else if llm_is_google client || agno_is_google client
      then inject_google_system_instruction kwargs
      else if (has_key "input" kwargs || has_key "instructions" kwargs)
          && not (has_key "messages" kwargs)
      then and_put "instructions" kwargs (instructions (get "instructions" kwargs))
      else in_messages kwargs (get "messages" kwargs)
