-- ===== src/CompactDirectory/Columns.antt =====
-- compact_directory.py, `lookup_cleartext`: the loop over the columns of one owner.
use fed_kg_rag_secure_impl.Prelude.{
  ℕ, zero, suc, ◌+◌, ◌*◌, ◌<◌, ◌≤◌, ◌≡◌, ap, sym, subst, ◌∙◌, arith, Bool-cases, inl, inr, true,
  List, ◌==◌, ==→eq,
}
use fed_kg_rag_secure_impl.Python.{ok}
use fed_kg_rag_secure_impl.Config.{range_from}
use fed_kg_rag_secure_impl.CompactDirectory.{TableShape, sum_at, scan_columns, width}
use fed_kg_rag_secure_impl.CompactDirectory.Table.{position}
use fed_kg_rag_secure_impl.CompactDirectory.Placing.{holds_tag, payload}

module _ (s : TableShape) (tables : List (List ℕ)) (tag bucket owner d : ℕ) (c : ℕ → ℕ)
    (sums : (slot : ℕ)
      → slot < s.slots
      → sum_at (position s bucket owner slot) tables ≡ ok (c slot))
    (answers : (slot : ℕ)
      → slot < s.slots
      → holds_tag s tag (c slot) ≡ true
      → payload s (c slot) ≡ d) where
  sum_here :
      (slot column : ℕ)
      → slot < s.slots
      → column ≡ owner * s.slots + slot
      → sum_at (bucket * width s + column) tables ≡ ok (c slot)
  unfolding position
  sum_here slot column h at = ap (λ (k : ℕ). sum_at (bucket * width s + k) tables) at ∙ sums slot h

  -- Once the descriptor is found, it stays.
  pub scan_columns_keeps :
      (slot n column : ℕ) {found : ℕ}
      → slot + n ≡ s.slots
      → column ≡ owner * s.slots + slot
      → found ≡ d
      → scan_columns s tables tag bucket (range_from column n) found ≡ ok d
  unfolding scan_columns
  scan_columns_keeps slot zero column total at same = ap ok same
  scan_columns_keeps slot (suc n) column {found} total at same =
      let step = sum_here slot column (omega arith) at in
      elim (Bool-cases (holds_tag s tag (c slot))) [
        | inl hit ↦
            rw (step, hit)
              (scan_columns_keeps (slot + 1) n (column + 1) (omega arith) (omega arith)
                (answers slot (omega arith) hit))
        | inr miss ↦
            rw (step, miss)
              (scan_columns_keeps (slot + 1) n (column + 1) (omega arith) (omega arith) same)
      ]

  -- A later slot that holds the tag gives the descriptor.
  pub scan_columns_finds :
      (slot n column target found : ℕ)
      → slot + n ≡ s.slots
      → column ≡ owner * s.slots + slot
      → slot ≤ target
      → target < s.slots
      → holds_tag s tag (c target) ≡ true
      → scan_columns s tables tag bucket (range_from column n) found ≡ ok d
  unfolding scan_columns
  scan_columns_finds slot zero column target found total at before small hit = absurd (omega arith)
  scan_columns_finds slot (suc n) column target found total at before small hit =
      let step = sum_here slot column (omega arith) at in
      elim (Bool-cases (slot == target)) [
        | inl here ↦
            let live : holds_tag s tag (c slot) ≡ true =
              subst (λ (k : ℕ). holds_tag s tag (c k) ≡ true) (sym (==→eq slot target here)) hit in
            rw (step, live)
              (scan_columns_keeps (slot + 1) n (column + 1) (omega arith) (omega arith)
                (answers slot (omega arith) live))
        | inr later ↦
            let next : slot + 1 ≤ target = ground arith in
            elim (Bool-cases (holds_tag s tag (c slot))) [
              | inl other ↦
                  rw (step, other)
                    (scan_columns_finds (slot + 1) n (column + 1) target _ (omega arith)
                      (omega arith) next small hit)
              | inr miss ↦
                  rw (step, miss)
                    (scan_columns_finds (slot + 1) n (column + 1) target _ (omega arith)
                      (omega arith) next small hit)
            ]
      ]
