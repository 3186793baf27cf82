-- ===== src/Pages/Read/Slots.antt =====
-- The slots of one page: packed entries are read back, padding and inactive pages are empty.
use fed_kg_rag_secure_impl.Prelude.{
  ℕ, zero, suc, ◌-◌, ◌≤◌, ◌≡◌, refl, sym, ap, ◌∙◌, true, false, List, [], ◌∷◌, ◌++◌, arith, length,
  replicate, All, ◌==◌, inl, inr, Bool-cases, ==→eq,
}
use fed_kg_rag_secure_impl.Python.{
  ok, ◌>>=◌, >>=-eq-ok, ok-injective, map_result, map_result-append, map_result-cons,
}
use fed_kg_rag_secure_impl.Config.{PublicConfig}
use fed_kg_rag_secure_impl.Packed.Unpacks.{pack_edge-unpacks, pack_edge-ne-zero}
use fed_kg_rag_secure_impl.Pages.Directory.{RelationPageConfig}
use fed_kg_rag_secure_impl.Pages.Build.{Entry, entry_fields, pack_entry, make_page}
use fed_kg_rag_secure_impl.Pages.Evaluate.{empty_slot, read_slot, matches}

-- An entry that a match can be: its target is no dummy.
abbrev pub HasTarget : Entry → Type 0
HasTarget e = 1 ≤ e.target

pub matches-append : (xs ys : List Entry) → matches (xs ++ ys) ≡ matches xs ++ matches ys
matches-append [] ys = refl
matches-append (x ∷ xs) ys = ground (arith, matches-append xs ys)

pub matches-replicate : (n : ℕ) → matches (replicate n empty_slot) ≡ []
matches-replicate zero = refl
matches-replicate (suc n) = matches-replicate n

pub matches-HasTarget : (es : List Entry) → All HasTarget es → matches es ≡ es
matches-HasTarget [] h = refl
matches-HasTarget (e ∷ es) h = ground (arith, matches-HasTarget es h.1)

read_slot-packed :
    (base : PublicConfig) (e : Entry) {n : ℕ}
    → HasTarget e
    → pack_entry base e ≡ ok n
    → read_slot base true n ≡ ok e
unfolding read_slot pack_entry
read_slot-packed base e {n} target h = elim (Bool-cases (n == 0)) [
  | inl zero_edge ↦
      absurd (pack_edge-ne-zero base (entry_fields e) refl refl h (==→eq _ _ zero_edge))
  | inr some_edge ↦ rw (some_edge, pack_edge-unpacks base (entry_fields e) refl h) (ground arith)
]

read_slots-packed :
    (base : PublicConfig) (es : List Entry) (ns : List ℕ)
    → All HasTarget es
    → map_result (pack_entry base) es ≡ ok ns
    → map_result (read_slot base true) ns ≡ ok es
read_slots-packed base [] [] targets h = refl
read_slots-packed base [] (n ∷ ns) targets h = absurd (ground arith)
read_slots-packed base (e ∷ es) [] targets h =
    let (u, _, rest) =
      >>=-eq-ok (pack_entry base e) (λ u. map_result (pack_entry base) es >>= λ more. ok (u ∷ more))
        h in
    let (more, _, o) = >>=-eq-ok (map_result (pack_entry base) es) (λ more. ok (u ∷ more)) rest in
    cc
read_slots-packed base (e ∷ es) (n ∷ ns) targets h =
    let (first, rest) = map_result-cons (pack_entry base) e es n ns h in
    rw (read_slot-packed base e targets.0 first, read_slots-packed base es ns targets.1 rest)

read_slots-padding :
    (base : PublicConfig) (n : ℕ)
    → map_result (read_slot base true) (replicate n 0) ≡ ok (replicate n empty_slot)
unfolding read_slot
read_slots-padding base zero = refl
read_slots-padding base (suc n) = rw (read_slots-padding base n)

pub read_slots-inactive :
    (base : PublicConfig) (page : List ℕ)
    → map_result (read_slot base false) page ≡ ok (replicate (length page) empty_slot)
unfolding read_slot
read_slots-inactive base [] = refl
read_slots-inactive base (n ∷ page) = rw (read_slots-inactive base page)

-- A page that `make_page` builds is read as its window and empty slots.
pub read_slots-make_page :
    (c : RelationPageConfig) (window : List Entry) {page : List ℕ}
    → All HasTarget window
    → make_page c window ≡ ok page
    → (k : ℕ) × (map_result (read_slot c.base true) page ≡ ok (window ++ replicate k empty_slot))
unfolding make_page
read_slots-make_page c window {page} targets h =
    let (ns, e, o) =
      >>=-eq-ok (map_result (pack_entry c.base) window)
        (λ p. ok (p ++ replicate (c.pages.page_size - length p) 0)) h in
    let k = c.pages.page_size - length ns in
    (
      k,
      ap (map_result (read_slot c.base true)) (sym (ok-injective o))
          ∙ map_result-append (read_slot c.base true) ns (replicate k 0) window
              (replicate k empty_slot) (read_slots-packed c.base window ns targets e)
              (read_slots-padding c.base k),
    )
