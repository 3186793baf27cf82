-- ===== src/Python/Sequence.antt =====
-- Python lists and dictionaries that raise when an item is missing, and sorting by a test.
use fed_kg_rag_secure_impl.Prelude.{
  ℕ, zero, suc, ◌≡◌, refl, sym, ap, ◌∙◌, arith, Bool, true, false, Option, none, some, List, [],
  ◌∷◌, max, length, set, get_elem?, ◌<◌, ◌+◌, All, Bool-cases, Option-cases, inl, inr,
  if◌then◌else◌,
}
use fed_kg_rag_secure_impl.Python.Dict.{Key, lookup, contains}
use fed_kg_rag_secure_impl.Python.Errors.{
  Result, ok, err, key_error, index_error, ◌>>=◌, >>=-eq-ok, ok-injective,
}

abbrev or_key_error {κ} : {V : Type κ} → Option V → Result V
or_key_error none = err key_error
or_key_error (some v) = ok v

module _ {ℓ κ} {K : Type ℓ} {V : Type κ} ⦃k : Key K⦄ where
  -- `d[key]`
  abbrev pub item : K → List (K × V) → Result V
  item a d = or_key_error (lookup a d)

-- The keys of a dictionary.
abbrev pub keys_of {ℓ κ} : {K : Type ℓ} {V : Type κ} → List (K × V) → List K
keys_of [] = []
keys_of ((a, v) ∷ d) = a ∷ keys_of d

module _ {ℓ} {A : Type ℓ} where
  abbrev or_index_error : Option A → Result A
  or_index_error none = err index_error
  or_index_error (some a) = ok a

  -- `xs[i]` for an `i` that is not negative.
  abbrev pub get_item : List A → ℕ → Result A
  get_item xs i = or_index_error (get_elem? xs i)

  -- `xs[i] = a` for an `i` that is not negative.
  abbrev pub set_item : List A → ℕ → A → Result (List A)
  set_item [] i a = err index_error
  set_item (x ∷ xs) zero a = ok (a ∷ xs)
  set_item (x ∷ xs) (suc i) a = do rest ← set_item xs i a; ok (x ∷ rest)

  -- Insertion before the first item that is not smaller keeps equal items in their order.
  abbrev pub insert_by : (A → A → Bool) → A → List A → List A
  insert_by le a [] = a ∷ []
  insert_by le a (b ∷ bs) = if le a b then a ∷ b ∷ bs else b ∷ insert_by le a bs

  -- `sorted(xs)` for the order that `le` tests.
  unfoldable pub sort_by : (A → A → Bool) → List A → List A
  sort_by le [] = []
  sort_by le (a ∷ xs) = insert_by le a (sort_by le xs)

  abbrev pub any_of : (A → Bool) → List A → Bool
  any_of test [] = false
  any_of test (a ∷ xs) = if test a then true else any_of test xs

-- `max(xs, default=d)`
abbrev pub max_default : ℕ → List ℕ → ℕ
max_default d [] = d
max_default d (x ∷ []) = x
max_default d (x ∷ y ∷ xs) = max x (max_default d (y ∷ xs))

-- `set(names) == set(others)`
module _ {ℓ} {K : Type ℓ} ⦃k : Key K⦄ where
  abbrev pub all_in : List K → List K → Bool
  all_in [] others = true
  all_in (a ∷ names) others = if contains a others then all_in names others else false

  abbrev pub same_names : List K → List K → Bool
  same_names names others = if all_in names others then all_in others names else false

module _ {ℓ} {A : Type ℓ} where
  pub get_item-get_elem? :
      (xs : List A) (i : ℕ) {a : A} → get_item xs i ≡ ok a → get_elem? xs i ≡ some a
  get_item-get_elem? xs i h = elim (Option-cases (get_elem? xs i)) [
    | inl missing ↦ let h2 = rw missing at h in cc
    | inr (a, found) ↦ let h2 = rw found at h in found ∙ ap some (ok-injective h2)
  ]

  pub set_item-set :
      (xs : List A) (i : ℕ) (a : A) {out : List A}
      → set_item xs i a ≡ ok out
      → (out ≡ set xs i a) × (i < length xs)
  set_item-set [] i a h = cc
  set_item-set (x ∷ xs) zero a h = (ground arith, omega arith)
  set_item-set (x ∷ xs) (suc i) a h =
      let (rest, e, o) = >>=-eq-ok (set_item xs i a) (λ rest. ok (x ∷ rest)) h in
      let ih = set_item-set xs i a e in
      (sym (ok-injective o) ∙ ap (λ t. x ∷ t) ih.0, omega (arith, ih.1))

  pub set_item-ok :
      (xs : List A) (i : ℕ) (a : A) → i < length xs → set_item xs i a ≡ ok (set xs i a)
  set_item-ok [] i a h = elim h [ ]
  set_item-ok (x ∷ xs) zero a h = refl
  set_item-ok (x ∷ xs) (suc i) a h = rw (set_item-ok xs i a (omega arith))

module _ {ℓ} {A : Type ℓ} (le : A → A → Bool) where
  length-insert_by : (a : A) (xs : List A) → length (insert_by le a xs) ≡ length xs + 1
  length-insert_by a [] = omega arith
  length-insert_by a (b ∷ bs) = ground (arith, length-insert_by a bs)

  pub length-sort_by : (xs : List A) → length (sort_by le xs) ≡ length xs
  unfolding sort_by
  length-sort_by [] = refl
  length-sort_by (a ∷ xs) = omega (arith, length-insert_by a (sort_by le xs), length-sort_by xs)

  pub All-insert_by {κ} :
      (P : A → Type κ) (a : A) (xs : List A) → P a → All P xs → All P (insert_by le a xs)
  All-insert_by P a [] h k = (h, tt)
  All-insert_by P a (b ∷ bs) h k = elim (Bool-cases (le a b)) [
    | inl before ↦ rw before (h, k)
    | inr behind ↦ rw behind (k.0, All-insert_by P a bs h k.1)
  ]

  pub All-sort_by {κ} : (P : A → Type κ) (xs : List A) → All P xs → All P (sort_by le xs)
  unfolding sort_by
  All-sort_by P [] h = tt
  All-sort_by P (a ∷ xs) h = All-insert_by P a (sort_by le xs) h.0 (All-sort_by P xs h.1)

  pub insert_by-All {κ} :
      (P : A → Type κ) (a : A) (xs : List A) → All P (insert_by le a xs) → P a × All P xs
  insert_by-All P a [] h = h
  insert_by-All P a (b ∷ bs) h = elim (Bool-cases (le a b)) [
    | inl before ↦ rw before at h
    | inr behind ↦
        let split = rw behind at h in
        let (new, rest) = insert_by-All P a bs split.1 in (new, (split.0, rest))
  ]

  pub sort_by-All {κ} : (P : A → Type κ) (xs : List A) → All P (sort_by le xs) → All P xs
  unfolding sort_by
  sort_by-All P [] h = tt
  sort_by-All P (a ∷ xs) h =
      let (new, rest) = insert_by-All P a (sort_by le xs) h in (new, sort_by-All P xs rest)
