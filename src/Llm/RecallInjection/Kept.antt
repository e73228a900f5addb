-- ===== src/Llm/RecallInjection/Kept.antt =====
-- memori/llm/pipelines/recall_injection.py: what a request asks after an injection of recalled facts.
use memori.Prelude.{
  ℕ, String, Bool, true, false, Option, none, some, List, [], ◌∷◌, ◌≡◌, subst, if◌then◌else◌,
  str_eq,
}
use memori.Exec.{Result, ok, err}
use memori.Json.{Json, Fields}
use memori.Native.Values as Native
use memori.Native.Values.{is_true}
use memori.Llm.{Client}
use memori.Llm.UserQuery.{extract_user_query}
use memori.Exec.{Exec, ◌>>=◌}
use memori.Exec.Returns.{Returns, Returns-bind}
use memori.Conn.{Env}
use memori.Memory.Config.{Config}
use memori.Llm.RecallInjection.{
  recall_context, Formats, Invoke, Sources, lifted, inject_relevant, inject_facts, inject_query,
  inject_entity, inject_recalled_facts, recall_cloud, recall_local, reset, set_summaries,
}
use memori.Llm.RecallInjection.Placed.{place_context}
use memori.Llm.RecallInjection.Asks.{Asks, Asks-query, Asks-refl, AsksIfOk}
use memori.Llm.RecallInjection.Asked.{AsksIfOk-place_context}

-- The request that an injection returns asks what the request asked.
AsksSame : Native.Values → Fields → Fields → Invoke → Type 0
AsksSame py kwargs kwargs' s = Asks py kwargs kwargs'

Returns-lifted :
    (py : Native.Values) (kwargs : Fields) (r : Result Fields)
    → AsksIfOk py kwargs r
    → Returns (AsksSame py kwargs) (lifted r)
unfolding AsksSame
Returns-lifted py kwargs (ok k) h = record { at = λ s a q. subst (AsksIfOk py kwargs) q h }
Returns-lifted py kwargs (err e) h = record { at = λ s a q. cc }

Returns-if :
    (py : Native.Values) (kwargs : Fields) (b : Bool) (m m' : Exec Invoke Fields)
    → Returns (AsksSame py kwargs) m
    → Returns (AsksSame py kwargs) m'
    → Returns (AsksSame py kwargs) (λ s. (if b then m else m') s)
Returns-if py kwargs true m m' h h' = h
Returns-if py kwargs false m m' h h' = h'

module _ (py : Formats) (env : Env) (config : Config) (threshold : ℕ) (sources : Sources)
    (client : Client) where
  Returns-relevant :
      (kwargs : Fields) (facts : List Json)
      → Returns
          (AsksSame py.native kwargs)
          (inject_relevant py env config threshold sources client kwargs facts)
  Returns-relevant kwargs [] =
      Returns-lifted py.native kwargs (ok kwargs) (Asks-refl py.native kwargs)
  Returns-relevant kwargs (f ∷ facts) =
      Returns-bind (set_summaries py env config threshold sources client (f ∷ facts))
        (λ u. lifted (place_context py.native (recall_context py (f ∷ facts)) client kwargs))
        (λ u.
          Returns-lifted py.native kwargs _
            (AsksIfOk-place_context py.native (recall_context py (f ∷ facts)) client kwargs))

  -- An injection of what a search gives.
  Returns-found :
      (kwargs : Fields) (search_facts : Exec Invoke (List Json))
      → Returns
          (AsksSame py.native kwargs)
          (search_facts >>= inject_facts py env config threshold sources client kwargs)
  Returns-found kwargs search_facts =
      Returns-bind search_facts (inject_facts py env config threshold sources client kwargs)
        (λ facts. Returns-relevant kwargs _)

  Returns-query :
      (kwargs : Fields) (entity_id query : String)
      → Returns
          (AsksSame py.native kwargs)
          (inject_query py env config threshold sources client kwargs entity_id query)
  Returns-query kwargs entity_id query =
      let unchanged = Returns-lifted py.native kwargs (ok kwargs) (Asks-refl py.native kwargs) in
      let recalled =
        Returns-found kwargs (recall_cloud py env config threshold sources client query) in
      let retrieved =
        Returns-found kwargs
          (recall_local py env config threshold sources client entity_id query) in
      Returns-if py.native kwargs (str_eq query "") _ _ unchanged (
        Returns-if py.native kwargs config.cloud _ _ recalled
          (Returns-if py.native kwargs config.has_storage _ _ retrieved unchanged))

  Returns-entity :
      (kwargs : Fields) (entity_id : Option String)
      → Returns
          (AsksSame py.native kwargs)
          (inject_entity py env config threshold sources client entity_id kwargs)
  Returns-entity kwargs none =
      Returns-lifted py.native kwargs (ok kwargs) (Asks-refl py.native kwargs)
  Returns-entity kwargs (some x) =
      Returns-bind (lifted (extract_user_query py.native kwargs))
        (inject_query py env config threshold sources client kwargs x) (Returns-query kwargs x)

  Returns-inject :
      (kwargs : Fields)
      → Returns
          (AsksSame py.native kwargs)
          (inject_recalled_facts py env config threshold sources client kwargs)
  unfolding inject_recalled_facts
  Returns-inject kwargs =
      Returns-bind (reset py env config threshold sources client)
        (λ u. inject_entity py env config threshold sources client config.entity_id kwargs)
        (λ u. Returns-entity kwargs config.entity_id)

  -- Whatever the store and the cloud answer, the request that an injection returns asks the query
  -- that it asked before.
  pub inject_recalled_facts-query :
      (kwargs kwargs' : Fields) (s : Invoke)
      → (inject_recalled_facts py env config threshold sources client kwargs s).0 ≡ ok kwargs'
      → extract_user_query py.native kwargs' ≡ extract_user_query py.native kwargs
  unfolding AsksSame
  inject_recalled_facts-query kwargs kwargs' s done =
      Asks-query py.native kwargs kwargs' ((Returns-inject kwargs).at s kwargs' done)
