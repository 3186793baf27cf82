-- ===== src/Sharing.antt =====
-- doram_t2_3pc/sharing.py: 3-out-of-3 additive sharing over a prime field. What
-- `secrets.randbelow` returns is an argument; the code draws two numbers for each value.
pub mod Laws
pub mod Secrecy
pub mod Vector
use fed_kg_rag_secure_impl.Prelude.{
  ℕ, ◌+◌, ◌-◌, ◌*◌, ◌%◌, Bool, true, false, Option, none, some, List, [], ◌∷◌, map, length, not,
  ◌==◌,
}
use fed_kg_rag_secure_impl.Python.{
  Json, int, ℤ, pos, as_int, in_range, Result, ok, err, value_error, type_error, ◌>>=◌, ◌>>◌,
  raise_if, map_result,
}

-- One item for each of the three servers.
pub record Servers {ℓ} (A : Type ℓ) : Type ℓ where
  pub s0 : A
  pub s1 : A
  pub s2 : A

abbrev pub server_count : ℕ
server_count = 3

-- The results of the two calls of `secrets.randbelow` for one value.
pub record Draws : Type 0 where
  pub first : ℕ
  pub second : ℕ

-- `value - first - second` may be negative, and Python's `%` brings it back into the field.
unfoldable pub split_value : ℕ → Draws → ℕ → Servers ℕ
split_value modulus d value = record {
  s0 = d.first;
  s1 = d.second;
  s2 = (value + 2 * modulus - d.first - d.second) % modulus;
}

abbrev share_int : ℕ → Draws → Option ℤ → Result (Servers ℕ)
share_int modulus d none = err type_error
share_int modulus d (some z) = elim (in_range z modulus) [
  | none ↦ err value_error
  | some v ↦ ok (split_value modulus d v)
]

unfoldable pub share : ℕ → Draws → Json → Result (Servers ℕ)
share modulus d value = share_int modulus d (as_int value)

abbrev pub to_list {ℓ} : {A : Type ℓ} → Servers A → List A
to_list p = p.s0 ∷ p.s1 ∷ p.s2 ∷ []

abbrev canonical_int : ℕ → Option ℤ → Result ℕ
canonical_int modulus none = err value_error
canonical_int modulus (some z) = elim (in_range z modulus) [
  | none ↦ err value_error
  | some v ↦ ok v
]

-- The test for a canonical field element.
abbrev pub canonical : ℕ → Json → Result ℕ
canonical modulus x = canonical_int modulus (as_int x)

abbrev pub sum : List ℕ → ℕ
sum [] = 0
sum (x ∷ xs) = x + sum xs

unfoldable pub reconstruct : ℕ → List Json → Result ℕ
reconstruct modulus pieces = do
  raise_if (not (length pieces == server_count)) value_error
  values ← map_result (canonical modulus) pieces
  ok (sum values % modulus)

-- A field element as it stands in a JSON shard.
abbrev pub element : ℕ → Json
element v = int (pos v)

abbrev pub cons_servers : Servers ℕ → Servers (List ℕ) → Servers (List ℕ)
cons_servers p v = record { s0 = p.s0 ∷ v.s0; s1 = p.s1 ∷ v.s1; s2 = p.s2 ∷ v.s2 }

-- Value `i` of the vector is shared with the draws `source i`.
unfoldable pub share_vector_from : ℕ → (ℕ → Draws) → ℕ → List Json → Result (Servers (List ℕ))
share_vector_from modulus source i [] = ok (record { s0 = []; s1 = []; s2 = [] })
share_vector_from modulus source i (value ∷ values) = do
  pieces ← share modulus (source i) value
  rest ← share_vector_from modulus source (i + 1) values
  ok (cons_servers pieces rest)

unfoldable pub share_vector : ℕ → (ℕ → Draws) → List Json → Result (Servers (List ℕ))
unfolding share_vector_from
share_vector modulus source values = share_vector_from modulus source 0 values
