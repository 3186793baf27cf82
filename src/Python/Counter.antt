-- ===== src/Python/Counter.antt =====
-- `collections.Counter`: the counts of keys, and their maximum.
use fed_kg_rag_secure_impl.Prelude.{
  ℕ, ◌+◌, ◌≤◌, ◌≡◌, Option, none, some, List, [], ◌∷◌, arith, ltb, if◌then◌else◌, max,
}
use fed_kg_rag_secure_impl.Python.Dict.{Key, lookup, insert, lookup-insert}

abbrev pub Counter {ℓ} : Type ℓ → Type ℓ
Counter K = List (K × ℕ)

abbrev or_zero : Option ℕ → ℕ
or_zero none = 0
or_zero (some n) = n

module _ {ℓ} {K : Type ℓ} ⦃k : Key K⦄ where
  -- `counts[key]`
  abbrev pub count_of : K → Counter K → ℕ
  count_of a d = or_zero (lookup a d)

  -- `counts[key] += 1`
  abbrev pub increment : K → Counter K → Counter K
  increment a d = insert a (count_of a d + 1) d

-- `max(counts.values(), default=0)`
abbrev pub largest {ℓ} : {K : Type ℓ} → Counter K → ℕ
largest [] = 0
largest ((a, n) ∷ d) = max n (largest d)

-- `sum(count > bound for count in counts.values())`
abbrev pub overflowing {ℓ} : {K : Type ℓ} → ℕ → Counter K → ℕ
overflowing bound [] = 0
overflowing bound ((a, n) ∷ d) = (if ltb bound n then 1 else 0) + overflowing bound d

module _ {ℓ} {K : Type ℓ} ⦃k : Key K⦄ where
  pub count_of-increment :
      (a b : K) (d : Counter K)
      → count_of b (increment a d) ≡ (if k.same b a then count_of a d + 1 else count_of b d)
  count_of-increment a b d = rw (lookup-insert a b (count_of a d + 1) d) (ground arith)

  pub count_of-le-largest : (a : K) (d : Counter K) → count_of a d ≤ largest d
  count_of-le-largest a [] = omega arith
  count_of-le-largest a ((b, n) ∷ d) = ground (arith, count_of-le-largest a d)

  pub largest-insert :
      (a : K) (v : ℕ) (d : Counter K)
      → count_of a d ≤ v
      → largest (insert a v d) ≡ max (largest d) v
  largest-insert a v [] h = omega arith
  largest-insert a v ((b, n) ∷ d) h = ground (arith, largest-insert a v d)

  -- The counter after more keys.
  abbrev pub count_all : List K → Counter K → Counter K
  count_all [] d = d
  count_all (a ∷ keys) d = count_all keys (increment a d)

  pub count_of_grows :
      (keys : List K) (a : K) (d : Counter K) → count_of a d ≤ count_of a (count_all keys d)
  count_of_grows [] a d = omega arith
  count_of_grows (b ∷ keys) a d =
      ground (arith, count_of_grows keys a (increment b d), count_of-increment b a d, k.same→eq a b)

  pub largest_grows : (keys : List K) (d : Counter K) → largest d ≤ largest (count_all keys d)
  largest_grows [] d = omega arith
  largest_grows (b ∷ keys) d = omega (
    arith,
    largest_grows keys (increment b d),
    largest-insert b (count_of b d + 1) d (omega arith),
  )

  -- The largest count is at most a bound when every count is.
  pub largest-le :
      (keys : List K) (d : Counter K) (bound : ℕ)
      → largest d ≤ bound
      → ((a : K) → count_of a (count_all keys d) ≤ bound)
      → largest (count_all keys d) ≤ bound
  largest-le [] d bound h all = h
  largest-le (b ∷ keys) d bound h all =
      largest-le keys (increment b d) bound
        (ground (
          arith,
          largest-insert b (count_of b d + 1) d (omega arith),
          count_of_grows keys b (increment b d),
          count_of-increment b b d,
          k.same_refl b,
          all b,
        ))
        all
