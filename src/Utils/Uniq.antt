-- ===== src/Utils/Uniq.antt =====
-- A text that stands where `generate_uniq` expects a list of terms.
use memori.Prelude.{
  String, Bool, true, false, none, List, [], ◌∷◌, ◌++◌, ◌≡◌, refl, ap, if◌then◌else◌,
}
use memori.Conn.{Env}
use memori.Utils.{codes, join, chars, normal_form, generate_uniq, generate_uniq_text}

abbrev pub is_empty : String → Bool
is_empty String.[] = true
is_empty (String.◌∷◌ c text) = false

join-chars : (text : String) → join (chars text) ≡ codes text
join-chars String.[] = refl
join-chars (String.◌∷◌ c text) = ap (λ l. Prim.Native.Char.code c ∷ l) (join-chars text)

append_nil : {A : Type 0} (l : List A) → l ++ [] ≡ l
append_nil [] = refl
append_nil (x ∷ l) = ap (λ l. x ∷ l) (append_nil l)

-- A text that MySQL's driver passes to `generate_uniq` in place of a list gets the uniq that the
-- other drivers give to the list of the text alone, unless it is empty: then it gets none.
pub generate_uniq_text-generate_uniq :
    (env : Env) (text : String)
    → generate_uniq_text env text ≡ (if is_empty text then none else generate_uniq env (text ∷ []))
unfolding generate_uniq_text generate_uniq normal_form
generate_uniq_text-generate_uniq env String.[] = refl
generate_uniq_text-generate_uniq env (String.◌∷◌ c text) =
    rw (join-chars text, append_nil (codes text)) refl
