-- ===== src/MultipartyFss/Evaluate/Combining.antt =====
-- `combine` on one share for each party is their exclusive or.
use fed_kg_rag_secure_impl.Prelude.{
  ℕ, zero, suc, ◌+◌, ◌-◌, ◌^◌, ◌<◌, ◌≤◌, ◌≡◌, refl, sym, ap, ◌∙◌, true, false, List, ◌∷◌, map,
  arith, ltb, bit_xor, ◌==◌, Bool-cases, inl, inr, ==_refl,
}
use fed_kg_rag_secure_impl.Prelude.Xor.{bit_xor_assoc, zero-bit_xor}
use fed_kg_rag_secure_impl.Prelude.XorSum.{xor_sum, bit_xor-zero}
use fed_kg_rag_secure_impl.Python.{ok, nat_key, contains}
use fed_kg_rag_secure_impl.Python.Sequence.{item, keys_of, same_names, all_in}
use fed_kg_rag_secure_impl.Config.{range_from}
use fed_kg_rag_secure_impl.MultipartyFss.Params.{output_bits}
use fed_kg_rag_secure_impl.MultipartyFss.Evaluate.{combine, combine_loop, check_share_value}

-- The dictionary `{i: v(i)}` for the parties from `lo` on.
abbrev pub numbered : (ℕ → ℕ) → ℕ → ℕ → List (ℕ × ℕ)
numbered v lo n = map (λ i. (i, v i)) (range_from lo n)

keys_of-numbered : (v : ℕ → ℕ) (lo n : ℕ) → keys_of (numbered v lo n) ≡ range_from lo n
keys_of-numbered v lo zero = refl
keys_of-numbered v lo (suc n) = ap (λ (l : List ℕ). lo ∷ l) (keys_of-numbered v (lo + 1) n)

item-numbered : (v : ℕ → ℕ) (lo n i : ℕ) → lo ≤ i → i < lo + n → item i (numbered v lo n) ≡ ok (v i)
item-numbered v lo zero i h k = absurd (omega arith)
item-numbered v lo (suc n) i h k = elim (Bool-cases (i == lo)) [
  | inl here ↦ let same : i ≡ lo = ground arith in rw (same, ==_refl lo) refl
  | inr later ↦ rw later (item-numbered v (lo + 1) n i (ground arith) (omega arith))
]

contains-range_from : (i lo n : ℕ) → lo ≤ i → i < lo + n → contains i (range_from lo n) ≡ true
contains-range_from i lo zero h k = absurd (omega arith)
contains-range_from i lo (suc n) h k = elim (Bool-cases (i == lo)) [
  | inl here ↦ rw here refl
  | inr later ↦ rw later (contains-range_from i (lo + 1) n (ground arith) (omega arith))
]

all_in-range_from : (lo n m : ℕ) → lo + n ≤ m → all_in (range_from lo n) (range_from 0 m) ≡ true
all_in-range_from lo zero m h = refl
all_in-range_from lo (suc n) m h =
    rw (contains-range_from lo 0 m (omega arith) (omega arith))
      (all_in-range_from (lo + 1) n m (omega arith))

same_names-range_from : (n : ℕ) → same_names (range_from 0 n) (range_from 0 n) ≡ true
same_names-range_from n = rw (all_in-range_from 0 n n (omega arith)) refl

combine_loop-xor_sum :
    (v : ℕ → ℕ) (p index more result : ℕ)
    → ((i : ℕ) → i < p → v i < 2 ^ output_bits)
    → index + more ≤ p
    → combine_loop (numbered v 0 p) index more result ≡ ok (bit_xor result (xor_sum index more v))
unfolding combine_loop check_share_value
combine_loop-xor_sum v p index zero result h k = ap ok (sym (bit_xor-zero result))
combine_loop-xor_sum v p index (suc more) result h k =
    let found = item-numbered v 0 p index (omega arith) (omega arith) in
    let word : ltb (2 ^ output_bits - 1) (v index) ≡ false =
      ground (arith, h index (omega arith)) in
    rw (found, word)
      (combine_loop-xor_sum v p (suc index) more (bit_xor result (v index)) h (omega arith)
        ∙ ap ok (bit_xor_assoc result (v index) (xor_sum (suc index) more v)))

pub combine-xor_sum :
    (v : ℕ → ℕ) (p : ℕ)
    → ((i : ℕ) → i < p → v i < 2 ^ output_bits)
    → combine (numbered v 0 p) p ≡ ok (xor_sum 0 p v)
unfolding combine
combine-xor_sum v p h =
    rw (keys_of-numbered v 0 p, same_names-range_from p)
      (combine_loop-xor_sum v p 0 p 0 h (omega arith) ∙ ap ok (zero-bit_xor (xor_sum 0 p v)))
