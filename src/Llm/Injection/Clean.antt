-- ===== src/Llm/Injection/Clean.antt =====
-- What is left of a history before it is sent again.
use memori.Prelude.{
  Bool, false, List, [], ◌∷◌, ◌≡◌, refl, ◌&&◌, All, str_eq, arith, Bool-cases, inl, inr,
}
use memori.Sqlite.Conversation.{Message}
use memori.Llm.{Texts}
use memori.Llm.Injection.{is_dropped, rename_role, sanitize_history_for_openai_compat}

-- A message that an OpenAI-compatible endpoint accepts in a history.
pub record IsClean (texts : Texts) (m : Message) : Type 0 where
  pub no_tool : str_eq m.role "tool" ≡ false
  pub no_model : str_eq m.role "model" ≡ false
  pub no_empty : (str_eq m.role "assistant" && texts.is_blank m.content) ≡ false

module _ (texts : Texts) where
  -- An empty message of the role "model" passes the test, and is an empty one of an assistant then.
  abbrev pub is_empty_model : Message → Bool
  is_empty_model m = str_eq m.role "model" && texts.is_blank m.content

  rename_role-IsClean :
      (m : Message)
      → is_dropped texts m ≡ false
      → is_empty_model m ≡ false
      → IsClean texts (rename_role texts m)
  rename_role-IsClean m kept full = elim (Bool-cases (str_eq m.role "model")) [
    | inl model ↦
        rw model
          (record { no_tool = refl; no_model = refl; no_empty = ground (arith, model, full) })
    | inr other ↦ rw other (record {
      no_tool = ground (arith, kept);
      no_model = other;
      no_empty = ground (arith, kept);
    })
  ]

-- If the history has no empty message of the role "model", every message that is left after
-- sanitizing it is of another role than "tool" and "model", and not an empty one of an assistant.
pub sanitize_history_for_openai_compat-IsClean :
    (texts : Texts) (messages : List Message)
    → All (λ m. is_empty_model texts m ≡ false) messages
    → All (IsClean texts) (sanitize_history_for_openai_compat texts messages)
unfolding sanitize_history_for_openai_compat
sanitize_history_for_openai_compat-IsClean texts [] full = tt
sanitize_history_for_openai_compat-IsClean texts (m ∷ messages) full =
    let rest = sanitize_history_for_openai_compat-IsClean texts messages full.1 in
    elim (Bool-cases (is_dropped texts m)) [
      | inl dropped ↦ rw dropped rest
      | inr kept ↦ rw kept (rename_role-IsClean texts m kept full.0, rest)
    ]
