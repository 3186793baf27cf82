-- ===== src/MultipartyFss/Arrays.antt =====
-- What the code uses of NumPy: vectors of 64-bit words, matrices of them as bytes, and the blocks of
-- a byte string. The laws are the documented behaviour of the operations in range.
use fed_kg_rag_secure_impl.Prelude.{
  ℕ, ◌+◌, ◌*◌, ◌^◌, ◌<◌, ◌≡◌, ◌≢◌, List, some, All, length, get_elem?, take, drop, bit_xor,
}

abbrev pub Bytes : Type 0
Bytes = List ℕ

pub record WordArrays : Type 1 where
  -- A vector of `<u8` words, and the bytes of a matrix of them.
  pub Array : Type 0
  pub Buffer : Type 0
  pub size : Array → ℕ
  pub get : Array → ℕ → ℕ
  pub zeros : ℕ → Array
  pub xor : Array → Array → Array
  pub put : Array → ℕ → ℕ → Array
  -- `matrix.tobytes()` of the matrix with these rows, and `len` of it.
  pub tobytes : List Array → Buffer
  pub nbytes : Buffer → ℕ
  -- `np.frombuffer(buffer, "<u8").reshape(rows, columns)[row]`
  pub matrix_row : Buffer → ℕ → ℕ → ℕ → Array
  -- `np.frombuffer(bytes, np.uint8).reshape(-1, per_row, width)[row, column].tobytes()`
  pub block : Bytes → ℕ → ℕ → ℕ → ℕ → Bytes
  pub size-zeros : (n : ℕ) → size (zeros n) ≡ n
  pub get-zeros : (n i : ℕ) → i < n → get (zeros n) i ≡ 0
  pub size-xor : (a b : Array) → size a ≡ size b → size (xor a b) ≡ size a
  pub get-xor :
      (a b : Array) (i : ℕ)
      → size a ≡ size b
      → i < size a
      → get (xor a b) i ≡ bit_xor (get a i) (get b i)
  pub size-put : (a : Array) (i v : ℕ) → i < size a → size (put a i v) ≡ size a
  pub get-put_self : (a : Array) (i v : ℕ) → i < size a → v < 2 ^ 64 → get (put a i v) i ≡ v
  pub get-put_ne : (a : Array) (i j v : ℕ) → i ≢ j → get (put a i v) j ≡ get a j
  pub get-lt : (a : Array) (i : ℕ) → i < size a → get a i < 2 ^ 64
  pub nbytes-tobytes :
      (rows : List Array) (columns : ℕ)
      → All (λ (r : Array). size r ≡ columns) rows
      → nbytes (tobytes rows) ≡ length rows * columns * 8
  pub matrix_row-tobytes :
      (rows : List Array) (columns j : ℕ) {r : Array}
      → All (λ (r : Array). size r ≡ columns) rows
      → get_elem? rows j ≡ some r
      → matrix_row (tobytes rows) (length rows) columns j ≡ r
  pub block_lem :
      (bytes : Bytes) (per_row width row column : ℕ)
      → block bytes per_row width row column
        ≡ take width (drop ((row * per_row + column) * width) bytes)
