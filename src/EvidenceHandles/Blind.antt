-- ===== src/EvidenceHandles/Blind.antt =====
-- evidence_handles.py, `allocate_owner_blind_handles`: the redrawn edges.
use fed_kg_rag_secure_impl.Prelude.{
  ℕ, zero, suc, ◌+◌, ◌^◌, ◌<◌, ◌≤◌, ◌≡◌, ◌≢◌, ap, refl, sym, subst, ◌∙◌, arith, String, Bool-cases,
  Option-cases, inl, inr, true, false, Option, none, some, List, [], ◌∷◌, ltb, All, Distinct,
  All-unzip, ◌==◌, str_eq,
}
use fed_kg_rag_secure_impl.Python.{
  ok, value_error, >>=-eq-ok, ok-injective, raise_if, lookup, insert, lookup-insert, contains,
  string_key, nat_key, int, pos,
}
use fed_kg_rag_secure_impl.EvidenceHandles.{
  Fields, checked_edge, fresh_handle, draw_limit, allocate_from, allocate_owner_blind_handles,
}

-- An edge with a new handle.
pub record IsRedrawn (edge : Option Fields) (handle : ℕ) (redrawn : Fields) : Type 0 where
  pub fields : Fields
  pub was : edge ≡ some fields
  pub handled : lookup "evidence" redrawn ≡ some (int (pos handle))
  pub same :
      (name : String) → str_eq name "evidence" ≡ false → lookup name redrawn ≡ lookup name fields

unfoldable pub AllRedrawn : List (Option Fields) → List ℕ → List Fields → Type 0
AllRedrawn [] [] [] = Unit
AllRedrawn [] [] (r ∷ redrawn) = ⊥
AllRedrawn [] (h ∷ handles) redrawn = ⊥
AllRedrawn (e ∷ edges) [] redrawn = ⊥
AllRedrawn (e ∷ edges) (h ∷ handles) [] = ⊥
AllRedrawn (e ∷ edges) (h ∷ handles) (r ∷ redrawn) =
    IsRedrawn e h r × AllRedrawn edges handles redrawn

-- What an allocation promises.
pub record IsBlind (evidence_bits : ℕ) (edges : List (Option Fields)) (redrawn : List Fields)
    : Type 0 where
  pub handles : List ℕ
  pub distinct : Distinct handles
  pub ranged : All (λ (h : ℕ). (1 ≤ h) × (h < 2 ^ evidence_bits)) handles
  pub kept : AllRedrawn edges handles redrawn

fresh_handle_lem :
    (draws : ℕ → ℕ) (attempt more : ℕ) (seen : List ℕ) {handle : ℕ}
    → fresh_handle draws attempt more seen ≡ ok handle
    → (contains handle seen ≡ false) × ((n : ℕ) × (draws n ≡ handle))
unfolding fresh_handle
fresh_handle_lem draws attempt zero seen h = cc
fresh_handle_lem draws attempt (suc more) seen h =
    elim (Bool-cases (contains (draws attempt) seen)) [
      | inl used ↦ fresh_handle_lem draws (attempt + 1) more seen (rw used at h)
      | inr new ↦
          let e = ok-injective (rw new at h) in
          (subst (λ (x : ℕ). contains x seen ≡ false) e new, (attempt, e))
    ]

checked_edge_lem :
    (edge : Option Fields) {fields : Fields} → checked_edge edge ≡ ok fields → edge ≡ some fields
checked_edge_lem none h = cc
checked_edge_lem (some fields) h = elim (Option-cases (lookup "evidence" fields)) [
  | inl missing ↦ let gone = rw missing at h in cc
  | inr (handle, there) ↦ ap some (ok-injective (rw there at h))
]

insert-IsRedrawn :
    (fields : Fields) (handle : ℕ)
    → IsRedrawn (some fields) handle (insert "evidence" (int (pos handle)) fields)
insert-IsRedrawn fields handle = record {
  fields = fields;
  was = refl;
  handled = lookup-insert "evidence" "evidence" (int (pos handle)) fields;
  same = λ name other. lookup-insert "evidence" name (int (pos handle)) fields ∙ (rw other refl);
}

-- A handle that differs from all handles seen so far.
contains-ne : (seen : List ℕ) (h : ℕ) → contains h seen ≡ false → All (λ (y : ℕ). h ≢ y) seen
contains-ne [] h e = tt
contains-ne (y ∷ seen) h e = elim (Bool-cases (h == y)) [
  | inl same ↦ let gone = rw same at e in absurd (true_false gone)
  | inr other ↦ ((λ same. apart h y same other), contains-ne seen h (rw other at e))
]
  where
    true_false : true ≡ false → ⊥
    true_false k = cc

    apart : (a b : ℕ) → a ≡ b → (a == b) ≡ false → ⊥
    apart a b same k = ground arith

module _ (draws : ℕ → ℕ → ℕ) (bits : ℕ)
    (ranged : (i n : ℕ) → (1 ≤ draws i n) × (draws i n < 2 ^ bits)) where
  -- The handles of the rest of the edges differ from those seen.
  pub record IsRest (edges : List (Option Fields)) (seen : List ℕ) (redrawn : List Fields)
      : Type 0 where
    pub blind : IsBlind bits edges redrawn
    pub new : All (λ (h : ℕ). All (λ (y : ℕ). h ≢ y) seen) blind.handles

  allocate_from-IsRest :
      (index : ℕ) (edges : List (Option Fields)) (seen : List ℕ) {redrawn : List Fields}
      → allocate_from draws index edges seen ≡ ok redrawn
      → IsRest edges seen redrawn
  unfolding allocate_from AllRedrawn
  allocate_from-IsRest index [] seen h =
      subst (IsRest [] seen) (ok-injective h)
        record { blind = record { handles = []; distinct = tt; ranged = tt; kept = tt }; new = tt }
  allocate_from-IsRest index (edge ∷ edges) seen h =
      let (fields, checked, h1) = >>=-eq-ok (checked_edge edge) _ h in
      let (handle, drawn, h2) = >>=-eq-ok (fresh_handle (draws index) 0 draw_limit seen) _ h1 in
      let (rest, runs, h3) =
        >>=-eq-ok (allocate_from draws (index + 1) edges (handle ∷ seen)) _ h2 in
      let ih = allocate_from-IsRest (index + 1) edges (handle ∷ seen) runs in
      let (unseen, (n, own)) = fresh_handle_lem (draws index) 0 draw_limit seen drawn in
      let (apart, others) =
        All-unzip (λ (h : ℕ). h ≢ handle) (λ (h : ℕ). All (λ (y : ℕ). h ≢ y) seen) ih.blind.handles
          ih.new in
      subst (IsRest (edge ∷ edges) seen) (ok-injective h3) record {
        blind = record {
          handles = handle ∷ ih.blind.handles;
          distinct = (apart, ih.blind.distinct);
          ranged =
              (subst (λ (x : ℕ). (1 ≤ x) × (x < 2 ^ bits)) own (ranged index n), ih.blind.ranged);
          kept = (
            subst (λ e. IsRedrawn e handle (insert "evidence" (int (pos handle)) fields))
                (sym (checked_edge_lem edge checked)) (insert-IsRedrawn fields handle),
            ih.blind.kept,
          );
        };
        new = (contains-ne seen handle unseen, others);
      }

  -- When every draw is at least 1 and below `2 ** evidence_bits` and
  -- `allocate_owner_blind_handles` returns, it returns one edge for each edge, with distinct
  -- handles that are at least 1 and below `2 ** evidence_bits`, and every field other than the
  -- handle as it was.
  pub allocate_owner_blind_handles-IsBlind :
      (edges : List (Option Fields)) {redrawn : List Fields}
      → allocate_owner_blind_handles edges bits draws ≡ ok redrawn
      → IsBlind bits edges redrawn
  unfolding allocate_owner_blind_handles
  allocate_owner_blind_handles-IsBlind edges h =
      let (u, wide, run) = >>=-eq-ok (raise_if (ltb bits 2) value_error) _ h in
      (allocate_from-IsRest 0 edges [] run).blind
