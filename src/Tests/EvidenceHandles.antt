-- ===== src/Tests/EvidenceHandles.antt =====
-- Runs and instances of the evidence handles: two edges whose first draws collide.
use native.Mathlib.Nat.{mod-lt}
use fed_kg_rag_secure_impl.Prelude.{
  ℕ, zero, suc, ◌+◌, ◌%◌, ◌^◌, ◌<◌, ◌≤◌, ◌≡◌, ◌↔◌, refl, arith, String, true, false, some, none,
  Option, List, [], ◌∷◌,
}
use fed_kg_rag_secure_impl.Python.{ok, err, value_error, int, pos, str, string_key}
use fed_kg_rag_secure_impl.Python.Sequence.{sort_by}
use fed_kg_rag_secure_impl.EvidenceHandles.{
  Fields, allocate_owner_blind_handles, allocate_from, fresh_handle, disjoint_ranges, handle_ranges,
  in_a_row, handles_leak_owner, compared, count_handles, duplicates_of, handle_total,
}
use fed_kg_rag_secure_impl.EvidenceHandles.Blind.{IsBlind, allocate_owner_blind_handles-IsBlind}
use fed_kg_rag_secure_impl.EvidenceHandles.Leak.{NamesOwner, disjoint_ranges-iff_NamesOwner}

-- The first draw is always three.
unfoldable draws : ℕ → ℕ → ℕ
draws index zero = 3
draws index (suc attempt) = index % 8 + 4

draws-InRange : (index attempt : ℕ) → (1 ≤ draws index attempt) × (draws index attempt < 2 ^ 5)
unfolding draws
draws-InRange index zero = (omega arith, omega arith)
draws-InRange index (suc attempt) =
    let small : index % 8 < 8 = mod-lt index (omega arith) in (omega arith, omega (arith, small))

abbrev edge : Option Fields
edge = some (("source", str "a") ∷ ("evidence", int (pos 101)) ∷ [])

abbrev redrawn : List Fields
redrawn =
    (("source", str "a") ∷ ("evidence", int (pos 3)) ∷ [])
    ∷ (("source", str "a") ∷ ("evidence", int (pos 5)) ∷ [])
    ∷ []

handles_run : allocate_owner_blind_handles (edge ∷ edge ∷ []) 5 draws ≡ ok redrawn
unfolding allocate_owner_blind_handles allocate_from fresh_handle draws
handles_run = refl

no_handle_run : allocate_owner_blind_handles (some [] ∷ []) 5 draws ≡ err value_error
unfolding allocate_owner_blind_handles allocate_from fresh_handle draws
no_handle_run = refl

abbrev owners : List (String × List ℕ)
owners = ("b", 201 ∷ 203 ∷ []) ∷ ("a", 105 ∷ 101 ∷ []) ∷ ("c", []) ∷ []

leak_run :
    handles_leak_owner (λ bits duplicates total. false) owners none
    ≡ compared true true false (("b", (201, 203)) ∷ ("a", (101, 105)) ∷ []) 0
unfolding handles_leak_owner disjoint_ranges handle_ranges in_a_row sort_by count_handles
    duplicates_of handle_total
leak_run = refl

allocate_owner_blind_handles-IsBlind_example : IsBlind 5 (edge ∷ edge ∷ []) redrawn
allocate_owner_blind_handles-IsBlind_example =
    allocate_owner_blind_handles-IsBlind draws 5 draws-InRange (edge ∷ edge ∷ []) handles_run

disjoint_ranges-iff_NamesOwner_example :
    (disjoint_ranges (handle_ranges owners) ≡ true) ↔ NamesOwner (handle_ranges owners)
disjoint_ranges-iff_NamesOwner_example = disjoint_ranges-iff_NamesOwner owners
