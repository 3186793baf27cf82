-- ===== src/XorPir.antt =====
-- src/pir/xor_pir.py: private retrieval of a record from replicated servers. Bytes are natural
-- numbers; what `secrets.randbits(1)` returns is an argument.
pub mod Algebra
pub mod Padding
pub mod Answers
pub mod Recovery
use fed_kg_rag_secure_impl.Prelude.{
  ℕ, zero, suc, ◌+◌, ◌-◌, ◌<◌, Bool, true, false, Option, none, some, List, [], ◌∷◌, ◌++◌, map, not,
  ltb, ◌==◌, ◌&&◌, length, replicate, set, bit_xor, if◌then◌else◌,
}
use fed_kg_rag_secure_impl.Python.{
  Result, ok, err, value_error, index_error, ◌>>=◌, ◌>>◌, raise_if, map_result,
}
use fed_kg_rag_secure_impl.Python.Sequence.{set_item}
use fed_kg_rag_secure_impl.Config.{range_from}

-- `[a ^ b for a, b in zip(left, right)]`
unfoldable pub zip_xor : List ℕ → List ℕ → List ℕ
zip_xor [] ys = []
zip_xor (x ∷ xs) [] = []
zip_xor (x ∷ xs) (y ∷ ys) = bit_xor x y ∷ zip_xor xs ys

unfoldable pub xor_bytes : List ℕ → List ℕ → Result (List ℕ)
xor_bytes left right = do
  raise_if (not (length left == length right)) value_error
  ok (zip_xor left right)

pub record FixedRecordDatabase : Type 0 where
  pub record_size : ℕ
  pub records : List (List ℕ)

unfoldable pub database_size : FixedRecordDatabase → ℕ
database_size d = length d.records

unfoldable pub pad_record : List ℕ → ℕ → Result (List ℕ)
pad_record payload record_size = do
  raise_if (ltb record_size 1) value_error
  raise_if (ltb record_size (length payload)) value_error
  ok (payload ++ replicate (record_size - length payload) 0)

-- `record.rstrip(b"\x00")`: a zero goes when nothing is left behind it.
abbrev pub drop_zero : ℕ → List ℕ → List ℕ
drop_zero b [] = if b == 0 then [] else b ∷ []
drop_zero b (x ∷ rest) = b ∷ x ∷ rest

unfoldable pub unpad_record : List ℕ → List ℕ
unpad_record [] = []
unpad_record (b ∷ rest) = drop_zero b (unpad_record rest)

-- `FixedRecordDatabase.from_json_records` after the encoding of its payloads.
unfoldable pub from_encoded : List (List ℕ) → ℕ → Result FixedRecordDatabase
from_encoded payloads record_size = do
  records ← map_result (λ payload. pad_record payload record_size) payloads
  ok (record { record_size = record_size; records = records })

pub record XorPirQuery : Type 0 where
  pub index : ℕ
  pub server_vectors : List (List ℕ)

unfoldable pub client : ℕ → Result ℕ
client server_count = do raise_if (ltb server_count 2) value_error; ok server_count

-- The loop that draws the vectors of the servers but the last, with their sum; bit `j` of the
-- vector of server `s` is `bit s j`.
unfoldable pub draw_vectors : (ℕ → ℕ → ℕ) → ℕ → ℕ → ℕ → List ℕ → List (List ℕ) × List ℕ
unfolding zip_xor
draw_vectors bit database_size server zero accumulator = ([], accumulator)
draw_vectors bit database_size server (suc more) accumulator =
    let vector = map (bit server) (range_from 0 database_size) in
    let rest = draw_vectors bit database_size (server + 1) more (zip_xor accumulator vector) in
    (vector ∷ rest.0, rest.1)

unfoldable pub create_query : ℕ → (ℕ → ℕ → ℕ) → ℕ → ℕ → Result XorPirQuery
unfolding draw_vectors
create_query server_count bit index database_size = do
  raise_if (not (ltb index database_size)) value_error
  let drawn = draw_vectors bit database_size 0 (server_count - 1) (replicate database_size 0)
  unit ← set_item (replicate database_size 0) index 1
  ok (record { index = index; server_vectors = drawn.0 ++ zip_xor drawn.1 unit ∷ [] })

unfoldable pub xor_all : List ℕ → List (List ℕ) → Result (List ℕ)
unfolding xor_bytes
xor_all result [] = ok result
xor_all result (answer ∷ answers) = do next ← xor_bytes result answer; xor_all next answers

unfoldable pub recover : ℕ → List (List ℕ) → Result (List ℕ)
unfolding xor_all unpad_record
recover server_count [] = do raise_if (not (0 == server_count)) value_error; err index_error
recover server_count (first ∷ answers) = do
  raise_if (not (suc (length answers) == server_count)) value_error
  result ← xor_all first answers
  ok (unpad_record result)

-- The loop of `XorPirServer.answer` over `zip(query_vector, records)`.
unfoldable pub xor_selected : List ℕ → List (List ℕ) → List ℕ → Result (List ℕ)
unfolding xor_bytes
xor_selected [] records result = ok result
xor_selected (b ∷ bits) [] result = ok result
xor_selected (b ∷ bits) (r ∷ records) result = do
  next ← if b == 0 then ok result else xor_bytes result r
  xor_selected bits records next

unfoldable pub answer : FixedRecordDatabase → List ℕ → Result (List ℕ)
unfolding xor_selected
answer d query_vector = do
  raise_if (not (length query_vector == length d.records)) value_error
  xor_selected query_vector d.records (replicate d.record_size 0)
