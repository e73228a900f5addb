-- ===== src/Utils/Merge.antt =====
-- memori/_utils.py: `merge_chunk`, which joins the chunks of a streamed answer.
pub mod Keys
use memori.Prelude.{Option, none, some, ◌≡◌}
use memori.Json.{
  Json, Fields, null, boolean, number, text, array, object, end, field, get, put, extend,
}

-- The dict `data` is changed in place; the model returns it.
unfoldable mutual
  pub merge_chunk : Fields → Fields → Fields
  merge_chunk dict end = dict
  merge_chunk dict (field key chunk_value rest) =
      merge_chunk (put key (merge_value (get key dict) chunk_value) dict) rest

  -- What a key has after it: `none` stands for a key that was not there.
  pub merge_value : Option Json → Json → Json
  merge_value (some (array xs)) (array ys) = array (extend xs ys)
  merge_value (some (object d)) (object c) = object (merge_chunk d c)
  merge_value old chunk_value = chunk_value
