-- ===== src/Llm/RecallInjection/Asked.antt =====
-- memori/llm/pipelines/recall_injection.py: what a request asks after a text is placed in it.
use memori.Prelude.{
  String, Bool, true, false, Option, none, some, ◌∷◌, ◌≡◌, refl, ap, ◌∙◌, sym, if◌then◌else◌,
  Bool-cases, inl, inr,
}
use memori.Exec.{Exc, Result, ok, err}
use memori.Json.{
  Json, null, boolean, number, text, array, object, Items, nil, cons, Fields, items, get, put,
}
use memori.Utils.Merge.Keys.{get-put}
use memori.Native.Values as Native
use memori.Native.Values.{is_true}
use memori.Llm.{Client}
use memori.Llm.UserQuery.{equals, extract_from_contents, messages_query, query_in_messages}
use memori.Llm.RecallInjection.Placed.{
  and_put, and_first, and_object, extended, extended_content, messages_with, in_messages,
  config_with, google_with, request_with, inject_google_system_instruction, place_context,
}
use memori.Llm.RecallInjection.Asks.{
  reversed_query-system, system_role, Asks-put, Asks-put_messages, Asks-refl, AsksIfOk,
  AsksIfOk-and_put,
}

module _ (py : Native.Values) (context : String) where
  AsksIfOk-config :
      (kwargs : Fields) (config : Option Json)
      → AsksIfOk py kwargs (config_with py context kwargs config)
  unfolding config_with
  AsksIfOk-config kwargs none = Asks-put py "config" _ kwargs refl refl refl refl
  AsksIfOk-config kwargs (some null) = Asks-put py "config" _ kwargs refl refl refl refl
  AsksIfOk-config kwargs (some (boolean b)) = Asks-refl py kwargs
  AsksIfOk-config kwargs (some (number n)) = Asks-refl py kwargs
  AsksIfOk-config kwargs (some (text s)) = Asks-refl py kwargs
  AsksIfOk-config kwargs (some (array xs)) = Asks-refl py kwargs
  AsksIfOk-config kwargs (some (object d)) =
      AsksIfOk-and_put py "config" kwargs _ refl refl refl refl

  -- A request's contents are as they were.
  AsksIfOk-contents :
      (kwargs d : Fields) (r : Result Json)
      → get "request" kwargs ≡ some (object d)
      → AsksIfOk py kwargs (and_put "request" kwargs (and_object (and_put "systemInstruction" d r)))
  AsksIfOk-contents kwargs d (err e) h = tt
  AsksIfOk-contents kwargs d (ok v) h =
      let new = object (put "systemInstruction" v d) in
      record {
        messages = rw (get-put "messages" "request" new kwargs) refl;
        input = get-put "input" "request" new kwargs;
        contents = get-put "contents" "request" new kwargs;
        request =
            rw (get-put "request" "request" new kwargs, h)
              (ap extract_from_contents (get-put "contents" "systemInstruction" v d));
      }

  AsksIfOk-request :
      (kwargs : Fields) (request : Json)
      → get "request" kwargs ≡ some request
      → AsksIfOk py kwargs (and_put "request" kwargs (request_with py context request))
  AsksIfOk-request kwargs (object d) h = AsksIfOk-contents kwargs d _ h
  AsksIfOk-request kwargs null h = tt
  AsksIfOk-request kwargs (boolean b) h = tt
  AsksIfOk-request kwargs (number n) h = tt
  AsksIfOk-request kwargs (text s) h = tt
  AsksIfOk-request kwargs (array xs) h = tt

  AsksIfOk-google :
      (kwargs : Fields) (request : Option Json)
      → get "request" kwargs ≡ request
      → AsksIfOk py kwargs (google_with py context kwargs request)
  AsksIfOk-google kwargs none h = AsksIfOk-config kwargs (get "config" kwargs)
  AsksIfOk-google kwargs (some request) h = AsksIfOk-request kwargs request h

  -- The query that the values of `messages` say.
  abbrev query_said : Json → Result (Option String)
  query_said v = messages_query py (some v)

  abbrev SameIfOk : Json → Result Json → Type 0
  SameIfOk old (ok v) = query_said v ≡ query_said old
  SameIfOk old (err e) = Unit

  SameIfOk-put :
      (d : Fields) (xs : Items) (r : Result Json)
      → equals (get "role" d) "system" ≡ true
      → SameIfOk (array (cons (object d) xs)) (and_first xs (and_object (and_put "content" d r)))
  SameIfOk-put d xs (err e) h = tt
  SameIfOk-put d xs (ok v) h =
      let said = system_role (get "role" d) h in
      reversed_query-system (put "content" v d) (items xs) (rw (get-put "role" "content" v d) said)
      ∙ sym (reversed_query-system d (items xs) said)

  SameIfOk-content :
      (d : Fields) (xs : Items) (content : Option Json)
      → equals (get "role" d) "system" ≡ true
      → SameIfOk (array (cons (object d) xs)) (and_first xs (extended_content py context d content))
  SameIfOk-content d xs none h = tt
  SameIfOk-content d xs (some v) h = SameIfOk-put d xs (extended py context (some v)) h

  SameIfOk-raised : (v : Json) (b : Bool) (e e' : Exc) → SameIfOk v (if b then err e else err e')
  SameIfOk-raised v true e e' = tt
  SameIfOk-raised v false e e' = tt

  SameIfOk-first :
      (d : Fields) (xs : Items)
      → SameIfOk
          (array (cons (object d) xs))
          (messages_with py context (array (cons (object d) xs)))
  SameIfOk-first d xs = elim (Bool-cases (equals (get "role" d) "system")) [
    | inl is_system ↦ rw is_system (SameIfOk-content d xs (get "content" d) is_system)
    | inr is_other ↦ rw is_other (reversed_query-system _ (object d ∷ items xs) refl)
  ]

  SameIfOk-messages : (v : Json) → SameIfOk v (messages_with py context v)
  unfolding query_in_messages
  SameIfOk-messages null = tt
  SameIfOk-messages (boolean b) = SameIfOk-raised (boolean b) b _ _
  SameIfOk-messages (number n) = SameIfOk-raised (number n) _ _ _
  SameIfOk-messages (text s) = tt
  SameIfOk-messages (array nil) = refl
  SameIfOk-messages (array (cons (object d) xs)) = SameIfOk-first d xs
  SameIfOk-messages (array (cons null xs)) = tt
  SameIfOk-messages (array (cons (boolean b) xs)) = tt
  SameIfOk-messages (array (cons (number n) xs)) = tt
  SameIfOk-messages (array (cons (text s) xs)) = tt
  SameIfOk-messages (array (cons (array ys) xs)) = tt
  SameIfOk-messages (object d) = SameIfOk-raised (object d) (is_true py (object d)) _ _

  AsksIfOk-messages :
      (kwargs : Fields) (v : Json) (r : Result Json)
      → get "messages" kwargs ≡ some v
      → SameIfOk v r
      → AsksIfOk py kwargs (and_put "messages" kwargs r)
  AsksIfOk-messages kwargs v (ok w) e h = Asks-put_messages py w kwargs (rw e h)
  AsksIfOk-messages kwargs v (err x) e h = tt

  AsksIfOk-in_messages :
      (kwargs : Fields) (m : Option Json)
      → get "messages" kwargs ≡ m
      → AsksIfOk py kwargs (in_messages py context kwargs m)
  AsksIfOk-in_messages kwargs none e = Asks-refl py kwargs
  AsksIfOk-in_messages kwargs (some v) e =
      AsksIfOk-messages kwargs v (messages_with py context v) e (SameIfOk-messages v)

  AsksIfOk-if :
      (kwargs : Fields) (b : Bool) (r r' : Result Fields)
      → AsksIfOk py kwargs r
      → AsksIfOk py kwargs r'
      → AsksIfOk py kwargs (if b then r else r')
  AsksIfOk-if kwargs true r r' h h' = h
  AsksIfOk-if kwargs false r r' h h' = h'

  pub AsksIfOk-place_context :
      (client : Client) (kwargs : Fields)
      → AsksIfOk py kwargs (place_context py context client kwargs)
  unfolding place_context inject_google_system_instruction
  AsksIfOk-place_context client kwargs = search (
    AsksIfOk-if,
    AsksIfOk-and_put py,
    AsksIfOk-google kwargs (get "request" kwargs) refl,
    AsksIfOk-in_messages kwargs (get "messages" kwargs) refl,
  )
