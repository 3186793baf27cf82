-- ===== src/Sharing/Laws.antt =====
-- Reconstruction from the three pieces, and the linearity that lets the servers add shares.
use native.Mathlib.Nat.{add-mod-mod, mod-lt, add-mod, mod-add-mod}
use fed_kg_rag_secure_impl.Prelude.{
  ℕ, ◌+◌, ◌-◌, ◌*◌, ◌%◌, ◌<◌, ◌≡◌, refl, sym, ap, ap₂, ◌∙◌, map, arith,
}
use fed_kg_rag_secure_impl.Prelude.Arith.{mod_unique}
use fed_kg_rag_secure_impl.Python.{Json, null, other, bool, str, int, pos, negsuc, ok, ◌>>=◌}
use fed_kg_rag_secure_impl.Sharing.{
  Servers, Draws, split_value, share, reconstruct, to_list, element, sum,
}

-- Both draws are field elements, as `secrets.randbelow(modulus)` documents.
abbrev pub IsDrawn : ℕ → Draws → Type 0
IsDrawn m d = (d.first < m) × (d.second < m)

abbrev pub IsCanonical : ℕ → Servers ℕ → Type 0
IsCanonical m p = (p.s0 < m) × (p.s1 < m) × (p.s2 < m)

pub sum-split_value :
    (m : ℕ) (d : Draws) (v : ℕ) → IsDrawn m d → v < m → sum (to_list (split_value m d v)) % m ≡ v
unfolding split_value
sum-split_value m d v h q =
    let third = v + 2 * m - d.first - d.second in
    ap (λ (t : ℕ). t % m) (omega arith)
    ∙ add-mod-mod (d.first + d.second) third m
    ∙ ap (λ (t : ℕ). t % m) (omega arith)
    ∙ mod_unique 2 v m q

pub split_value-IsCanonical :
    (m : ℕ) (d : Draws) (v : ℕ) → IsDrawn m d → IsCanonical m (split_value m d v)
unfolding split_value
split_value-IsCanonical m d v h = (h.0, h.1, mod-lt _ (omega arith))

-- The only values that `share` accepts are integers of the field.
pub share_inversion :
    (m : ℕ) (d : Draws) (x : Json) {p : Servers ℕ}
    → share m d x ≡ ok p
    → (v : ℕ) × (x ≡ element v) × (v < m) × (p ≡ split_value m d v)
unfolding share
share_inversion m d null h = cc
share_inversion m d other h = cc
share_inversion m d (bool b) h = cc
share_inversion m d (str s) h = cc
share_inversion m d (int (negsuc n)) h = cc
share_inversion m d (int (pos n)) h = (n, refl, ground arith, ground arith)

pub share_in_range :
    (m : ℕ) (d : Draws) (v : ℕ) → v < m → share m d (element v) ≡ ok (split_value m d v)
unfolding share
share_in_range m d v h = ground arith

pub reconstruct_canonical :
    (m : ℕ) (p : Servers ℕ)
    → IsCanonical m p
    → reconstruct m (map element (to_list p)) ≡ ok (sum (to_list p) % m)
unfolding reconstruct
reconstruct_canonical m p h = ground arith

-- A field element that is shared with draws in range is reconstructed from its three pieces.
pub reconstruct-share :
    (m : ℕ) (d : Draws) (v : ℕ)
    → IsDrawn m d
    → v < m
    → (share m d (element v) >>= λ p. reconstruct m (map element (to_list p))) ≡ ok v
reconstruct-share m d v h q = rw (share_in_range m d v q) (
    reconstruct_canonical m _ (split_value-IsCanonical m d v h) ∙ ap ok (sum-split_value m d v h q))

-- Piece by piece addition, as each server does it alone.
abbrev pub add_pieces : ℕ → Servers ℕ → Servers ℕ → Servers ℕ
add_pieces m p q = record { s0 = (p.s0 + q.s0) % m; s1 = (p.s1 + q.s1) % m; s2 = (p.s2 + q.s2) % m }

drop_mod_left : (m a x y : ℕ) → x % m ≡ y % m → (a % m + x) % m ≡ (a + y) % m
drop_mod_left m a x y h =
    mod-add-mod a m x ∙ sym (add-mod-mod a x m) ∙ ap (λ (t : ℕ). (a + t) % m) h ∙ add-mod-mod a y m

sum-add_pieces :
    (m : ℕ) (p q : Servers ℕ)
    → sum (to_list (add_pieces m p q)) % m ≡ (sum (to_list p) + sum (to_list q)) % m
sum-add_pieces m p q =
    drop_mod_left m (p.s0 + q.s0) _ _
      (drop_mod_left m (p.s1 + q.s1) _ _ (drop_mod_left m (p.s2 + q.s2) 0 0 refl))
    ∙ ap (λ (t : ℕ). t % m) (omega arith)

-- Adding, server by server, the sharings of two field elements with draws in range gives a sharing
-- of their sum in the field.
pub reconstruct-add_pieces :
    (m : ℕ) (d e : Draws) (v w : ℕ)
    → IsDrawn m d
    → IsDrawn m e
    → v < m
    → w < m
    → reconstruct m (map element (to_list (add_pieces m (split_value m d v) (split_value m e w))))
      ≡ ok ((v + w) % m)
reconstruct-add_pieces m d e v w hd he hv hw =
    reconstruct_canonical m _
      (mod-lt _ (omega arith), mod-lt _ (omega arith), mod-lt _ (omega arith))
    ∙ ap ok (
        sum-add_pieces m (split_value m d v) (split_value m e w)
        ∙ add-mod (sum (to_list (split_value m d v))) (sum (to_list (split_value m e w))) m
        ∙ ap₂ (λ (a b : ℕ). (a + b) % m) (sum-split_value m d v hd hv)
            (sum-split_value m e w he hw))
