-- ===== src/VolumeHiding/Windows.antt =====
-- What appending to a dictionary and to a list does to lookups and windows.
use fed_kg_rag_secure_impl.Prelude.{
  ℕ, suc, ◌+◌, ◌<◌, ◌≡◌, ap, refl, ◌∙◌, arith, Bool-cases, inl, inr, false, List, [], ◌∷◌, ◌++◌,
  some, length, get_elem?, ◌==◌, ==_refl, get_elem?-append_left, get_elem?-append_right,
  get_elem?-lt,
}
use fed_kg_rag_secure_impl.Python.{Result, ok, >>=-eq-ok, map_result, lookup, contains, nat_key}
use fed_kg_rag_secure_impl.Python.Sequence.{get_item, get_item-get_elem?, keys_of}
use fed_kg_rag_secure_impl.Config.{range_from}
use fed_kg_rag_secure_impl.VolumeHiding.{window}

module _ {ℓ} {V : Type ℓ} where
  pub lookup-append_some :
      (key : ℕ) (d e : List (ℕ × V)) {v : V} → lookup key d ≡ some v → lookup key (d ++ e) ≡ some v
  lookup-append_some key [] e h = cc
  lookup-append_some key ((name, w) ∷ d) e h = elim (Bool-cases (key == name)) [
    | inl same ↦ rw same (rw same at h)
    | inr other ↦ rw other (lookup-append_some key d e (rw other at h))
  ]

  pub lookup-append_new :
      (key : ℕ) (d : List (ℕ × V)) (v : V)
      → contains key (keys_of d) ≡ false
      → lookup key (d ++ (key, v) ∷ []) ≡ some v
  lookup-append_new key [] v h = rw (==_refl key) refl
  lookup-append_new key ((name, w) ∷ d) v h = elim (Bool-cases (key == name)) [
    | inl same ↦ let gone = rw same at h in cc
    | inr other ↦ rw other (lookup-append_new key d v (rw other at h))
  ]

module _ {ℓ} {A : Type ℓ} where
  map_result-grows :
      (f g : ℕ → Result A) (l : List ℕ) {out : List A}
      → ((k : ℕ) (a : A) → f k ≡ ok a → g k ≡ ok a)
      → map_result f l ≡ ok out
      → map_result g l ≡ ok out
  map_result-grows f g [] more h = h
  map_result-grows f g (k ∷ l) more h =
      let (a, run, h1) = >>=-eq-ok (f k) _ h in
      let (rest, runs, h2) = >>=-eq-ok (map_result f l) _ h1 in
      rw (more k a run, map_result-grows f g l more runs) h2

  pub window-append :
      (xs ys : List A) (base count : ℕ) {out : List A}
      → window xs base count ≡ ok out
      → window (xs ++ ys) base count ≡ ok out
  unfolding window
  window-append xs ys base count h =
      map_result-grows (λ k. get_item xs (base + k)) (λ k. get_item (xs ++ ys) (base + k))
        (range_from 0 count)
        (λ k a run.
          let found = get_item-get_elem? xs (base + k) run in
          rw (get_elem?-append_left xs ys (base + k) (get_elem?-lt xs (base + k) found), found)
            refl)
        h

  whole_window :
      (items ys : List A) (base lo : ℕ)
      → ((k : ℕ) → k < length ys → get_elem? items (base + (lo + k)) ≡ get_elem? ys k)
      → map_result (λ k. get_item items (base + k)) (range_from lo (length ys)) ≡ ok ys
  whole_window items [] base lo same = refl
  whole_window items (y ∷ ys) base lo same =
      let here : get_elem? items (base + lo) ≡ some y =
        ap (get_elem? items) (omega arith) ∙ same 0 (omega arith) in
      rw
        (
          here,
          whole_window items ys base (lo + 1)
              (λ k small. ap (get_elem? items) (omega arith) ∙ same (suc k) (omega arith)),
        )
        refl

  pub window-append_all : (xs ys : List A) → window (xs ++ ys) (length xs) (length ys) ≡ ok ys
  unfolding window
  window-append_all xs ys = whole_window (xs ++ ys) ys (length xs) 0 (λ k small.
      get_elem?-append_right xs ys (length xs + (0 + k)) (omega arith)
      ∙ ap (get_elem? ys) (omega arith))
