-- ===== src/Utils.antt =====
-- memori/_utils.py: `generate_uniq`. A text is the list of its code points.
pub mod Uniq
pub mod Merge
use Prim.Native.Char.{code}
use memori.Prelude.{
  ℕ, String, Bool, Option, none, some, List, [], ◌∷◌, ◌++◌, ◌&&◌, ◌||◌, filter, leb,
}
use memori.Conn.{Env}

abbrev pub codes : String → List ℕ
codes String.[] = []
codes (String.◌∷◌ c s) = code c ∷ codes s

-- `"".join(terms)`
abbrev join : List String → List ℕ
join [] = []
join (t ∷ ts) = codes t ++ join ts

-- `[a-z0-9]`
abbrev is_alnum : ℕ → Bool
is_alnum c = (leb b'a' c && leb c b'z') || (leb b'0' c && leb c b'9')

-- `re.sub(r"[^a-z0-9]", "", "".join(terms).lower())`
unfoldable pub normal_form : Env → List String → List ℕ
normal_form env terms = filter is_alnum (env.lower (join terms))

unfoldable pub generate_uniq : Env → List String → Option String
generate_uniq env [] = none
generate_uniq env (t ∷ ts) = some (env.sha256 (normal_form env (t ∷ ts)))

-- The characters of a text, which Python iterates over as texts of length one.
abbrev pub chars : String → List String
chars String.[] = []
chars (String.◌∷◌ c s) = String.◌∷◌ c String.[] ∷ chars s

-- `generate_uniq(fact)`, where a text is given for the list of terms
unfoldable pub generate_uniq_text : Env → String → Option String
unfolding generate_uniq
generate_uniq_text env text = generate_uniq env (chars text)
