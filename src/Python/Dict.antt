-- ===== src/Python/Dict.antt =====
-- A Python `dict` as the list of its items in insertion order, and a `Counter`.
use text.Mathlib.TextPositions.{eq_refl}
use fed_kg_rag_secure_impl.Prelude.{
  ℕ, String, ◌≡◌, refl, Bool, true, false, Option, none, some, List, [], ◌∷◌, arith, ◌==◌, ◌&&◌,
  str_eq, eq_iff, if◌then◌else◌, ==→eq, ==_refl,
}

-- Keys with a test for equality.
pub record Key {ℓ} (K : Type ℓ) : Type ℓ where
  pub same : K → K → Bool
  pub same_refl : (a : K) → same a a ≡ true
  pub same→eq : (a b : K) → same a b ≡ true → a ≡ b

pub string-same→eq : (a b : String) → str_eq a b ≡ true → a ≡ b
string-same→eq a b h = (eq_iff a b).0 h

instance abbrev pub string_key : Key String
string_key = record { same = str_eq; same_refl = eq_refl; same→eq = string-same→eq }

instance abbrev pub nat_key : Key ℕ
nat_key = record { same = ◌==◌; same_refl = ==_refl; same→eq = ==→eq }

abbrev pub same_pair : ℕ × ℕ → ℕ × ℕ → Bool
same_pair a b = (a.0 == b.0) && (a.1 == b.1)

pub same_pair_refl : (a : ℕ × ℕ) → same_pair a a ≡ true
same_pair_refl a = ground arith

pub same_pair→eq : (a b : ℕ × ℕ) → same_pair a b ≡ true → a ≡ b
same_pair→eq a b h = ground arith

instance abbrev pub pair_key : Key (ℕ × ℕ)
pair_key = record { same = same_pair; same_refl = same_pair_refl; same→eq = same_pair→eq }

module _ {ℓ κ} {K : Type ℓ} {V : Type κ} ⦃k : Key K⦄ where
  -- `d.get(key)`
  abbrev pub lookup : K → List (K × V) → Option V
  lookup a [] = none
  lookup a ((b, v) ∷ d) = if k.same a b then some v else lookup a d

  -- `d[key] = value`
  abbrev pub insert : K → V → List (K × V) → List (K × V)
  insert a v [] = (a, v) ∷ []
  insert a v ((b, w) ∷ d) = if k.same a b then (b, v) ∷ d else (b, w) ∷ insert a v d

module _ {ℓ κ} {K : Type ℓ} {V : Type κ} ⦃k : Key K⦄ where
  pub lookup-insert :
      (a b : K) (v : V) (d : List (K × V))
      → lookup b (insert a v d) ≡ (if k.same b a then some v else lookup b d)
  lookup-insert a b v [] = refl
  lookup-insert a b v ((c, w) ∷ d) =
      ground
        (arith, lookup-insert a b v d, k.same→eq a c, k.same→eq b a, k.same→eq b c, k.same_refl a)

-- `a in names`
module _ {ℓ} {K : Type ℓ} ⦃k : Key K⦄ where
  abbrev pub contains : K → List K → Bool
  contains a [] = false
  contains a (b ∷ bs) = if k.same a b then true else contains a bs
