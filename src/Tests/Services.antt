-- ===== src/Tests/Services.antt =====
-- Runs of the requests, the chunks of texts and the merging of streamed chunks.
use memori.Prelude.{ℕ, String, some, List, [], ◌∷◌, ◌≡◌, refl, ltb, arith, if◌then◌else◌}
use memori.Exec.{ok}
use memori.Json.{Fields, number, array, object, end, field, get, nil, cons}
use memori.Utils.Merge.{merge_chunk}
use memori.Utils.Merge.Keys.{Merges, AreDicts, merge_chunk-Merges}
use memori.Network.{Response, response_error, other_error, success, Run, request_async}
use memori.Network.Retries.{Decides, request_async-Decides}
use memori.Embeddings.{chunk_text_by_tokens}
use memori.Embeddings.Slices.{Covers, chunk_text_by_tokens-Covers}

-- A server that is down for three requests.
abbrev flaky : ℕ → Response String
flaky n = if ltb n 2 then response_error 503 else if ltb n 3 then other_error else success "yes"

request_async-Decides_example :
    (run : Run String) × (request_async flaky ≡ some run) × Decides flaky run
request_async-Decides_example = request_async-Decides flaky

abbrev size_name : List ℕ → String
size_name [] = "empty"
size_name (_ ∷ []) = "one"
size_name _ = "more"

abbrev five : List ℕ
five = 7 ∷ 8 ∷ 9 ∷ 7 ∷ 8 ∷ []

chunk_text_by_tokens-Covers_example :
    (chunks : List String) × (chunk_text_by_tokens size_name five 2 ≡ some (ok chunks))
    × Covers size_name five 2 chunks
chunk_text_by_tokens-Covers_example = chunk_text_by_tokens-Covers size_name five 2 (omega arith)

abbrev so_far : Fields
so_far = field "id" (number 1) (
    field "choices" (array (cons (number 1) nil))
      (field "usage" (object (field "in" (number 3) end)) end))

abbrev next_chunk : Fields
next_chunk =
    field "choices" (array (cons (number 2) nil))
      (field "usage" (object (field "out" (number 4) end)) end)

merge_chunk-Merges_example :
    Merges
      (get "usage" so_far)
      (get "usage" next_chunk)
      (get "usage" (merge_chunk so_far next_chunk))
unfolding AreDicts
merge_chunk-Merges_example =
    merge_chunk-Merges so_far next_chunk "usage"
      ((refl, (refl, tt)), (tt, (((refl, tt), (tt, tt)), tt)))

merge_usage :
    get "usage" (merge_chunk so_far next_chunk)
    ≡ some (object (field "in" (number 3) (field "out" (number 4) end)))
unfolding merge_chunk
merge_usage = refl

chunks_of_two : chunk_text_by_tokens size_name five 2 ≡ some (ok ("more" ∷ "more" ∷ "one" ∷ []))
unfolding chunk_text_by_tokens
chunks_of_two = refl
