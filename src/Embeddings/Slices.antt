-- ===== src/Embeddings/Slices.antt =====
-- The chunks of a text lose no token and are of the size asked for.
use memori.Prelude.{
  ℕ, zero, suc, ◌+◌, ◌≤◌, ◌<◌, String, false, some, List, [], ◌∷◌, ◌++◌, length, take, map, All,
  ◌≡◌, refl, ap, sym, ltb, arith, Bool-cases, inl, inr, ◌==◌,
}
use memori.Prelude.Sort.{length-take_le}
use memori.Exec.{ok}
use memori.Embeddings.{drop, slice, chunks_from, chunk_text_by_tokens}

abbrev pub concat : {A : Type 0} → List (List A) → List A
concat [] = []
concat (xs ∷ xss) = xs ++ concat xss

suc_add : (i n : ℕ) → suc i + n ≡ suc (i + n)
suc_add i n = omega arith

module _ {A : Type 0} where
  take-drop : (n : ℕ) (xs : List A) → take n xs ++ drop n xs ≡ xs
  take-drop zero xs = refl
  take-drop (suc n) [] = refl
  take-drop (suc n) (x ∷ xs) = ap (λ l. x ∷ l) (take-drop n xs)

  drop-nil : (n : ℕ) → drop {A = A} n [] ≡ []
  drop-nil zero = refl
  drop-nil (suc n) = refl

  drop-add : (i n : ℕ) (xs : List A) → drop (i + n) xs ≡ drop n (drop i xs)
  drop-add zero n xs = ap (λ k. drop k xs) (omega arith)
  drop-add (suc i) n [] = rw (drop-nil (suc i + n)) (sym (drop-nil n))
  drop-add (suc i) n (x ∷ xs) = rw (suc_add i n) (drop-add i n xs)

  drop-past : (i : ℕ) (xs : List A) → length xs ≤ i → drop i xs ≡ []
  drop-past i [] h = drop-nil i
  drop-past zero (x ∷ xs) h = ground arith
  drop-past (suc i) (x ∷ xs) h = drop-past i xs (omega arith)

  slice_nonempty : (i n : ℕ) (xs : List A) → i < length xs → 0 < n → 0 < length (slice i n xs)
  slice_nonempty i n [] h p = ground arith
  slice_nonempty zero zero (x ∷ xs) h p = ground arith
  slice_nonempty zero (suc n) (x ∷ xs) h p = omega arith
  slice_nonempty (suc i) n (x ∷ xs) h p = slice_nonempty i n xs (omega arith) p

  slice-next : (i n : ℕ) (xs : List A) → slice i n xs ++ drop (i + n) xs ≡ drop i xs
  slice-next i n xs = rw (drop-add i n xs) (take-drop n (drop i xs))

zero_ne : (n : ℕ) → 0 < n → (n == 0) ≡ false
zero_ne n h = ground arith

-- The slices whose decodings are `chunks`: together they are `tokens`, none is empty, and none
-- is longer than `size`.
pub record Covers {Token : Type 0} (decode : List Token → String) (tokens : List Token) (size : ℕ)
    (chunks : List String) : Type 0 where
  pub slices : List (List Token)
  pub decoded : map decode slices ≡ chunks
  pub whole : concat slices ≡ tokens
  pub sizes : All (λ s. (0 < length s) × (length s ≤ size)) slices

module _ {Token : Type 0} (decode : List Token → String) (tokens : List Token) (size : ℕ)
    (positive : 0 < size) where
  nothing_left : (i : ℕ) → length tokens ≤ i → Covers decode (drop i tokens) size []
  nothing_left i past = record {
    slices = [];
    decoded = refl;
    whole = sym (drop-past i tokens past);
    sizes = tt;
  }

  one_more :
      (i : ℕ) (chunks : List String)
      → i < length tokens
      → Covers decode (drop (i + size) tokens) size chunks
      → Covers decode (drop i tokens) size (decode (slice i size tokens) ∷ chunks)
  one_more i chunks inside covers = record {
    slices = slice i size tokens ∷ covers.slices;
    decoded = ap (λ l. decode (slice i size tokens) ∷ l) covers.decoded;
    whole = rw covers.whole (slice-next i size tokens);
    sizes = (
      (slice_nonempty i size tokens inside positive, length-take_le size (drop i tokens)),
      covers.sizes,
    );
  }

  chunks_from-Covers :
      (fuel i : ℕ)
      → length tokens ≤ fuel + i
      → (chunks : List String) × (chunks_from decode tokens size (suc fuel) i ≡ some chunks)
        × Covers decode (drop i tokens) size chunks
  unfolding chunks_from
  chunks_from-Covers zero i enough = ([], ground arith, nothing_left i (omega arith))
  chunks_from-Covers (suc fuel) i enough = elim (Bool-cases (ltb i (length tokens))) [
    | inl inside ↦
        let (chunks, same, covers) = chunks_from-Covers fuel (i + size) (omega arith) in
        (
          decode (slice i size tokens) ∷ chunks,
          ground (arith, same),
          one_more i chunks (ground arith) covers,
        )
    | inr past ↦ ([], rw past refl, nothing_left i (ground arith))
  ]

-- With a positive size, `chunk_text_by_tokens` returns, and its chunks are the decodings of slices
-- that together are the tokens of the text, in order, none empty and none longer than the size.
pub chunk_text_by_tokens-Covers :
    {Token : Type 0} (decode : List Token → String) (tokens : List Token) (size : ℕ)
    → 0 < size
    → (chunks : List String) × (chunk_text_by_tokens decode tokens size ≡ some (ok chunks))
      × Covers decode tokens size chunks
unfolding chunk_text_by_tokens
chunk_text_by_tokens-Covers decode tokens size positive =
    let (chunks, same, covers) =
      chunks_from-Covers decode tokens size positive (length tokens) 0 (omega arith) in
    (chunks, rw (zero_ne size positive, same) refl, covers)
