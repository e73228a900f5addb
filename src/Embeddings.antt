-- ===== src/Embeddings.antt =====
-- memori/embeddings/_chunking.py: `chunk_text_by_tokens`.
pub mod Slices
use memori.Prelude.{
  ℕ, zero, suc, ◌+◌, ◌-◌, String, Bool, true, false, Option, none, some, List, [], ◌∷◌, length,
  take, map, ltb, ◌==◌, if◌then◌else◌,
}
use memori.Exec.{Result, ok, err, other}

-- `l[n:]`
abbrev pub drop : {A : Type 0} → ℕ → List A → List A
drop zero xs = xs
drop (suc n) [] = []
drop (suc n) (x ∷ xs) = drop n xs

-- `l[i : i + n]`
abbrev pub slice : {A : Type 0} → ℕ → ℕ → List A → List A
slice i n xs = take n (drop i xs)

abbrev pub returned : {A : Type 0} → Option A → Option (Result A)
returned none = none
returned (some a) = some (ok a)

module _ {Token : Type 0} (decode : List Token → String) (tokens : List Token)
    (chunk_size : ℕ) where
  abbrev pub add_chunk : ℕ → Option (List String) → Option (List String)
  add_chunk i none = none
  add_chunk i (some chunks) = some (decode (slice i chunk_size tokens) ∷ chunks)

  -- `for i in range(0, num_tokens, chunk_size)`, on fuel
  unfoldable pub chunks_from : ℕ → ℕ → Option (List String)
  chunks_from zero i = none
  chunks_from (suc fuel) i =
      let rest = chunks_from fuel (i + chunk_size) in
      if ltb i (length tokens) then add_chunk i rest else some []

  -- A ValueError, or the loop
  unfoldable pub chunk_text_by_tokens : Option (Result (List String))
  unfolding chunks_from
  chunk_text_by_tokens =
      if chunk_size == 0 then some (err other) else returned (chunks_from (suc (length tokens)) 0)
