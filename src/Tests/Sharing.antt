-- ===== src/Tests/Sharing.antt =====
-- Runs and instances of doram_t2_3pc/sharing.py.
use fed_kg_rag_secure_impl.Prelude.{ℕ, ◌+◌, ◌%◌, ◌≡◌, refl, List, [], ◌∷◌, map, arith, true}
use fed_kg_rag_secure_impl.Python.{int, bool, negsuc, ok, err, type_error, value_error, ◌>>=◌}
use fed_kg_rag_secure_impl.Sharing.{
  Servers, Draws, share, split_value, reconstruct, share_vector, to_list, element,
}
use fed_kg_rag_secure_impl.Sharing.Laws.{IsDrawn, add_pieces, reconstruct-add_pieces}
use fed_kg_rag_secure_impl.Sharing.Secrecy.{servers_02, view, resample, resample_lem}
use fed_kg_rag_secure_impl.Sharing.Vector.{reconstruct_rows, reconstruct-share_vector}

abbrev draws : Draws
draws = record { first = 90; second = 80 }

abbrev source : ℕ → Draws
source i = record { first = (90 + i) % 101; second = 80 }

share_wraps : share 101 draws (element 7) ≡ ok (record { s0 = 90; s1 = 80; s2 = 39 })
unfolding share split_value
share_wraps = refl

share_bool : share 101 draws (bool true) ≡ err type_error
unfolding share
share_bool = refl

share_negative : share 101 draws (int (negsuc 0)) ≡ err value_error
unfolding share
share_negative = refl

reconstruct_two : reconstruct 101 (element 1 ∷ element 2 ∷ []) ≡ err value_error
unfolding reconstruct
reconstruct_two = refl

reconstruct-add_pieces_example :
    reconstruct 101
      (map element (to_list (add_pieces 101 (split_value 101 draws 60) (split_value 101 draws 70))))
    ≡ ok 29
reconstruct-add_pieces_example =
    reconstruct-add_pieces 101 draws draws 60 70 (omega arith) (omega arith) (omega arith)
      (omega arith)

resample_lem_example :
    IsDrawn 101 (resample servers_02 101 7 8 draws)
    × (view servers_02 (split_value 101 (resample servers_02 101 7 8 draws) 8)
        ≡ view servers_02 (split_value 101 draws 7))
    × (resample servers_02 101 8 7 (resample servers_02 101 7 8 draws) ≡ draws)
resample_lem_example =
    resample_lem servers_02 101 7 8 draws (omega arith) (omega arith) (omega arith)

reconstruct-share_vector_example :
    (share_vector 101 source (map element (7 ∷ 0 ∷ 100 ∷ [])) >>= reconstruct_rows 101)
    ≡ ok (7 ∷ 0 ∷ 100 ∷ [])
reconstruct-share_vector_example =
    reconstruct-share_vector 101 source (7 ∷ 0 ∷ 100 ∷ []) source_drawn (omega arith)
  where
    source_drawn : (j : ℕ) → IsDrawn 101 (source j)
    source_drawn j = omega arith

abbrev two_shards : Servers (List ℕ)
two_shards = record { s0 = 90 ∷ 91 ∷ []; s1 = 80 ∷ 80 ∷ []; s2 = 39 ∷ 39 ∷ [] }

share_vector_two : share_vector 101 source (element 7 ∷ element 8 ∷ []) ≡ ok two_shards
unfolding share_vector share split_value
share_vector_two = refl
