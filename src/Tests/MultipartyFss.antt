-- ===== src/Tests/MultipartyFss.antt =====
-- Runs and instances of multiparty_fss: three parties, a domain of two bits, and arrays as lists.
use mathlib.Core.List.Permᴰ
use native.Mathlib.Nat.{mod-lt, mod-eq_of_lt, suc-mul}
use fed_kg_rag_secure_impl.Prelude.{
  ℕ, zero, suc, true, ◌+◌, ◌*◌, ◌^◌, ◌%◌, ◌<◌, ◌≡◌, ◌≢◌, ◌↔◌, ◌++◌, map, refl, ap, String, none,
  some, List, [], ◌∷◌, arith, length, All, bit_xor, get_or, get_elem?, set, take, drop, replicate,
  length-replicate, length-set, if◌then◌else◌, ◌==◌,
}
use fed_kg_rag_secure_impl.Prelude.Xor.{bit_xor-lt}
use fed_kg_rag_secure_impl.Python.{ok, err, parameter_error, ◌>>=◌, map_result, int, pos, bool}
use fed_kg_rag_secure_impl.MultipartyFss.Params.{
  MpDpfParams, IsCeilSqrt, ceil_sqrt-IsCeilSqrt, mu, create, ceil_sqrt, isqrt, new_params,
  domain_size, nu, seeds_per_row, cell, sigma_bytes, cw_bytes,
}
use fed_kg_rag_secure_impl.MultipartyFss.Arrays.{WordArrays, Bytes}
use fed_kg_rag_secure_impl.MultipartyFss.KeyShare.{
  MpDpfKeyShare, is_hex, new_key_share, seed_block, cw_row, expand_seed, domain_binding_raw,
}
use fed_kg_rag_secure_impl.MultipartyFss.Keygen.{
  generate, resolve_params, sample_parity_array, xor_expansions, correction_words, xor_words,
  party_share, party_blocks, row_blocks,
}
use fed_kg_rag_secure_impl.MultipartyFss.Parity.{
  parity_columns, columns_of, count_ones, party_holds,
}
use fed_kg_rag_secure_impl.MultipartyFss.Evaluate.{
  combine, combine_loop, check_share_value, evaluate, row_vector, row_loop, evaluate_many,
}
use fed_kg_rag_secure_impl.Config.{range_from}
use fed_kg_rag_secure_impl.Python.Sequence.{sort_by}
use fed_kg_rag_secure_impl.MultipartyFss.Evaluate.Batch.{whole, evaluate_many-iff_evaluate}
use fed_kg_rag_secure_impl.MultipartyFss.Shares.{IsRandomness}
use fed_kg_rag_secure_impl.MultipartyFss.Correct.{output_shares, generate-combine}

abbrev word : ℕ → ℕ
word n = n % 2 ^ 64

abbrev xor_lists : List ℕ → List ℕ → List ℕ
xor_lists [] ys = []
xor_lists (x ∷ xs) [] = []
xor_lists (x ∷ xs) (y ∷ ys) = bit_xor (word x) (word y) ∷ xor_lists xs ys

length-xor_lists : (xs ys : List ℕ) → length xs ≡ length ys → length (xor_lists xs ys) ≡ length xs
length-xor_lists [] ys h = refl
length-xor_lists (x ∷ xs) [] h = absurd (omega arith)
length-xor_lists (x ∷ xs) (y ∷ ys) h = ap suc (length-xor_lists xs ys (omega arith))

word_at : List ℕ → ℕ → ℕ
word_at xs i = word (get_or xs i 0)

word_at-xor_lists :
    (xs ys : List ℕ) (i : ℕ)
    → length xs ≡ length ys
    → i < length xs
    → word_at (xor_lists xs ys) i ≡ bit_xor (word_at xs i) (word_at ys i)
unfolding word_at
word_at-xor_lists [] ys i h small = elim small [ ]
word_at-xor_lists (x ∷ xs) [] i h small = absurd (omega arith)
word_at-xor_lists (x ∷ xs) (y ∷ ys) zero h small =
    mod-eq_of_lt (bit_xor-lt 64 (word x) (word y) (mod-lt x (omega arith)) (mod-lt y (omega arith)))
word_at-xor_lists (x ∷ xs) (y ∷ ys) (suc i) h small =
    word_at-xor_lists xs ys i (omega arith) (omega arith)

word_at-zeros : (n i : ℕ) → i < n → word_at (replicate n 0) i ≡ 0
unfolding word_at
word_at-zeros zero i h = absurd (omega arith)
word_at-zeros (suc n) zero h = refl
word_at-zeros (suc n) (suc i) h = word_at-zeros n i (omega arith)

word_at-set_self : (xs : List ℕ) (i v : ℕ) → i < length xs → v < 2 ^ 64 → word_at (set xs i v) i ≡ v
unfolding word_at
word_at-set_self [] i v h k = elim h [ ]
word_at-set_self (x ∷ xs) zero v h k = mod-eq_of_lt k
word_at-set_self (x ∷ xs) (suc i) v h k = word_at-set_self xs i v (omega arith) k

word_at-set_ne : (xs : List ℕ) (i j v : ℕ) → i ≢ j → word_at (set xs i v) j ≡ word_at xs j
unfolding word_at
word_at-set_ne [] i j v h = refl
word_at-set_ne (x ∷ xs) zero zero v h = absurd (h refl)
word_at-set_ne (x ∷ xs) zero (suc j) v h = refl
word_at-set_ne (x ∷ xs) (suc i) zero v h = refl
word_at-set_ne (x ∷ xs) (suc i) (suc j) v h = word_at-set_ne xs i j v (λ e. h (ap suc e))

abbrev matrix_bytes : List (List ℕ) → ℕ
matrix_bytes [] = 0
matrix_bytes (r ∷ rows) = length r * 8 + matrix_bytes rows

matrix_bytes_lem :
    (rows : List (List ℕ)) (columns : ℕ)
    → All (λ (r : List ℕ). length r ≡ columns) rows
    → matrix_bytes rows ≡ length rows * columns * 8
matrix_bytes_lem [] columns h = omega arith
matrix_bytes_lem (r ∷ rows) columns h =
    omega (arith, h.0, matrix_bytes_lem rows columns h.1, suc-mul (length rows) columns)

get_or-found :
    (rows : List (List ℕ)) (j : ℕ) {r : List ℕ} → get_elem? rows j ≡ some r → get_or rows j [] ≡ r
get_or-found [] j h = cc
get_or-found (x ∷ rows) zero h = cc
get_or-found (x ∷ rows) (suc j) h = get_or-found rows j h

word_at-lt : (xs : List ℕ) (i : ℕ) → i < length xs → word_at xs i < 2 ^ 64
unfolding word_at
word_at-lt xs i h = mod-lt (get_or xs i 0) (omega arith)

abbrev lists : WordArrays
lists = record {
  Array = List ℕ;
  Buffer = List (List ℕ);
  size = length;
  get = word_at;
  zeros = λ n. replicate n 0;
  xor = xor_lists;
  put = set;
  tobytes = λ rows. rows;
  nbytes = matrix_bytes;
  matrix_row = λ rows count columns j. get_or rows j [];
  block =
      λ bytes per_row width row column. take width (drop ((row * per_row + column) * width) bytes);
  size-zeros = λ n. length-replicate {A = ℕ} n 0;
  get-zeros = word_at-zeros;
  size-xor = length-xor_lists;
  get-xor = word_at-xor_lists;
  size-put = λ a i v h. length-set a i v;
  get-put_self = word_at-set_self;
  get-put_ne = word_at-set_ne;
  get-lt = word_at-lt;
  nbytes-tobytes = matrix_bytes_lem;
  matrix_row-tobytes = λ rows columns j h found. get_or-found rows j found;
  block_lem = λ bytes per_row width row column. refl;
}

abbrev params : MpDpfParams
params = record { domain_bits = 4; party_count = 3; threshold = 1 }

width : mu params ≡ 8
unfolding mu ceil_sqrt isqrt
width = refl

height : nu params ≡ 2
unfolding nu mu ceil_sqrt isqrt domain_size
height = refl

created : create 4 3 none ≡ ok params
unfolding create
created = refl

too_few : new_params 4 2 1 ≡ err parameter_error
unfolding new_params
too_few = refl

abbrev expansion : MpDpfParams → Bytes → List ℕ
expansion p seed = replicate (mu p) (get_or seed 0 0 * 1000)

abbrev seed : ℕ → ℕ → Bytes
seed row j = suc (row * 4 + j) ∷ replicate 15 0

abbrev random_word : ℕ → List ℕ
random_word j = replicate (mu params) (j + 7)

abbrev keygen_id : String
keygen_id = "00112233445566778899aabbccddeeff"

random : IsRandomness lists expansion params seed random_word (λ row xs. xs) keygen_id
unfolding is_hex
random = record {
  seed_size = λ row j. refl;
  seed_set = λ row j. ground arith;
  word_wide = λ j. length-replicate {A = ℕ} (mu params) (j + 7);
  expansion_wide = λ row j. length-replicate {A = ℕ} (mu params) (suc (row * 4 + j) * 1000);
  shuffled = λ row xs. Permᴰ.refl xs;
  id_hex = refl;
}

given : resolve_params (some params) 3 none none ≡ ok params
unfolding resolve_params
given = refl

in_domain : 11 < domain_size params
unfolding domain_size
in_domain = omega arith

generate-combine_example :
    (keys : List (MpDpfKeyShare lists)) × (generate lists expansion seed random_word
        (λ row xs. xs)
        keygen_id
        11
        99
        3
        none
        (some params)
        none
        domain_binding_raw
      ≡ ok keys)
    × ((x : ℕ)
        → x < domain_size params
        → (output_shares lists expansion x keys >>= λ ys. combine ys 3)
          ≡ ok (if x == 11 then 99 else 0))
generate-combine_example =
    generate-combine lists expansion params seed random_word (λ row xs. xs) keygen_id
      domain_binding_raw random refl 11 99 3 none (some params) none given (omega arith) in_domain
      (omega arith)

-- The point and its neighbour, as the parties compute them.
at_point :
    (generate lists expansion seed random_word
        (λ row xs. xs)
        keygen_id
        11
        99
        3
        none
        (some params)
        none
        domain_binding_raw
      >>= λ keys. output_shares lists expansion 11 keys >>= λ ys. combine ys 3)
    ≡ ok 99
unfolding generate resolve_params mu ceil_sqrt isqrt nu domain_size seeds_per_row cell
    sample_parity_array parity_columns columns_of count_ones xor_expansions expand_seed
    correction_words xor_words party_share party_blocks row_blocks party_holds new_key_share is_hex
    sigma_bytes cw_bytes evaluate row_vector row_loop seed_block cw_row combine combine_loop
    check_share_value word_at
at_point = refl

ceil_sqrt-IsCeilSqrt_example : IsCeilSqrt 10 (ceil_sqrt 10)
ceil_sqrt-IsCeilSqrt_example = ceil_sqrt-IsCeilSqrt 10

-- A key share with seeds in its first row only.
abbrev key_share : MpDpfKeyShare lists
key_share = record {
  params = params;
  party_index = 0;
  keygen_id = keygen_id;
  domain_binding = domain_binding_raw;
  sigma = seed 0 0 ++ seed 0 1 ++ seed 0 2 ++ seed 0 3 ++ replicate 64 0;
  correction_words = map random_word (range_from 0 4);
}

evaluate_many-iff_evaluate_example :
    (evaluate_many lists expansion key_share (int (pos 9) ∷ int (pos 2) ∷ []) ≡ ok (0 ∷ 44 ∷ []))
    ↔ ((points : List ℕ) × (int (pos 9) ∷ int (pos 2) ∷ [] ≡ map whole points)
        × (map_result (evaluate lists expansion key_share) points ≡ ok (0 ∷ 44 ∷ [])))
evaluate_many-iff_evaluate_example =
    evaluate_many-iff_evaluate lists expansion key_share (int (pos 9) ∷ int (pos 2) ∷ [])
      (0 ∷ 44 ∷ [])

batch_run :
    evaluate_many lists expansion key_share (int (pos 9) ∷ int (pos 2) ∷ int (pos 3) ∷ [])
    ≡ ok (0 ∷ 44 ∷ 44 ∷ [])
unfolding evaluate_many mu ceil_sqrt isqrt domain_size seeds_per_row row_vector row_loop seed_block
    cw_row expand_seed word_at sort_by
batch_run = refl

outside_run :
    evaluate_many lists expansion key_share (int (pos 9) ∷ int (pos 16) ∷ []) ≡ err parameter_error
unfolding evaluate_many domain_size
outside_run = refl

-- `True` is refused, where `evaluate` takes it for the point 1.
bool_run : evaluate_many lists expansion key_share (bool true ∷ []) ≡ err parameter_error
unfolding evaluate_many domain_size
bool_run = refl
