-- ===== src/Sharing/Vector.antt =====
-- `share_vector`: the whole vector comes back, and its shards have its length.
use fed_kg_rag_secure_impl.Prelude.{
  ℕ, ◌+◌, ◌<◌, ◌≡◌, refl, ap, ◌∙◌, List, [], ◌∷◌, map, arith, length, All,
}
use fed_kg_rag_secure_impl.Python.{Json, Result, ok, ◌>>=◌, map_result, >>=-eq-ok}
use fed_kg_rag_secure_impl.Sharing.{
  Servers, Draws, split_value, share, share_vector_from, share_vector, reconstruct, to_list,
  element, cons_servers,
}
use fed_kg_rag_secure_impl.Sharing.Laws.{
  IsDrawn, share_in_range, reconstruct_canonical, split_value-IsCanonical, sum-split_value,
}

-- The pieces of each value, put together again from the three shards.
abbrev pub zip3 : List ℕ → List ℕ → List ℕ → List (Servers ℕ)
zip3 [] ys zs = []
zip3 (x ∷ xs) [] zs = []
zip3 (x ∷ xs) (y ∷ ys) [] = []
zip3 (x ∷ xs) (y ∷ ys) (z ∷ zs) = record { s0 = x; s1 = y; s2 = z } ∷ zip3 xs ys zs

abbrev pub rows : Servers (List ℕ) → List (Servers ℕ)
rows s = zip3 s.s0 s.s1 s.s2

abbrev pub reconstruct_rows : ℕ → Servers (List ℕ) → Result (List ℕ)
reconstruct_rows m s = map_result (λ p. reconstruct m (map element (to_list p))) (rows s)

reconstruct_split :
    (m : ℕ) (d : Draws) (v : ℕ)
    → IsDrawn m d
    → v < m
    → reconstruct m (map element (to_list (split_value m d v))) ≡ ok v
reconstruct_split m d v h q =
    reconstruct_canonical m _ (split_value-IsCanonical m d v h) ∙ ap ok (sum-split_value m d v h q)

reconstruct-share_vector_from :
    (m : ℕ) (source : ℕ → Draws) (i : ℕ) (values : List ℕ)
    → ((j : ℕ) → IsDrawn m (source j))
    → All (λ v. v < m) values
    → (share_vector_from m source i (map element values) >>= reconstruct_rows m) ≡ ok values
unfolding share_vector_from
reconstruct-share_vector_from m source i [] drawn h = refl
reconstruct-share_vector_from m source i (v ∷ vs) drawn h =
    let (shards, shared, back) =
      >>=-eq-ok (share_vector_from m source (i + 1) (map element vs)) (reconstruct_rows m)
        (reconstruct-share_vector_from m source (i + 1) vs drawn h.1) in
    rw (
      share_in_range m (source i) v h.0,
      shared,
      reconstruct_split m (source i) v (drawn i) h.0,
      back,
    )

-- A vector of field elements, shared with draws in range, is reconstructed position by position
-- from its three shards.
pub reconstruct-share_vector :
    (m : ℕ) (source : ℕ → Draws) (values : List ℕ)
    → ((j : ℕ) → IsDrawn m (source j))
    → All (λ v. v < m) values
    → (share_vector m source (map element values) >>= reconstruct_rows m) ≡ ok values
unfolding share_vector
reconstruct-share_vector m source values drawn h =
    reconstruct-share_vector_from m source 0 values drawn h

length-share_vector_from :
    (m : ℕ) (source : ℕ → Draws) (i : ℕ) (values : List Json) {s : Servers (List ℕ)}
    → share_vector_from m source i values ≡ ok s
    → (length s.s0 ≡ length values) × (length s.s1 ≡ length values) × (length s.s2 ≡ length values)
unfolding share_vector_from
length-share_vector_from m source i [] {s} h = ground arith
length-share_vector_from m source i (v ∷ vs) {s} h =
    let (p, _, rest) =
      >>=-eq-ok (share m (source i) v)
        (λ p. share_vector_from m source (i + 1) vs >>= λ r. ok (cons_servers p r)) h in
    let (r, shared, e) =
      >>=-eq-ok (share_vector_from m source (i + 1) vs) (λ r. ok (cons_servers p r)) rest in
    let ih = length-share_vector_from m source (i + 1) vs shared in ground arith

-- Each of the three shards that `share_vector` returns is as long as the vector of values.
pub length-share_vector :
    (m : ℕ) (source : ℕ → Draws) (values : List Json) {s : Servers (List ℕ)}
    → share_vector m source values ≡ ok s
    → (length s.s0 ≡ length values) × (length s.s1 ≡ length values) × (length s.s2 ≡ length values)
unfolding share_vector
length-share_vector m source values h = length-share_vector_from m source 0 values h
