-- ===== src/Sharing/Secrecy.antt =====
-- Any two servers of the three learn nothing about a shared value: for every other value there is
-- a renaming of the random draws, undone by its converse, under which they see the same pieces.
use native.Mathlib.Nat.{mod-lt, mod-add-mod, add-mod-mod, mod-eq_of_lt}
use fed_kg_rag_secure_impl.Prelude.{ℕ, ◌+◌, ◌-◌, ◌%◌, ◌<◌, ◌≡◌, refl, sym, ap, ◌∙◌, arith}
use fed_kg_rag_secure_impl.Prelude.Arith.{mod_unique, mod_cancel}
use fed_kg_rag_secure_impl.Sharing.{Servers, Draws, split_value}
use fed_kg_rag_secure_impl.Sharing.Laws.{IsDrawn, sum-split_value}

-- The two corrupted servers.
pub data Corrupted : Type 0 where
  servers_01 servers_02 servers_12 : Corrupted

abbrev pub view : Corrupted → Servers ℕ → ℕ × ℕ
view servers_01 p = (p.s0, p.s1)
view servers_02 p = (p.s0, p.s2)
view servers_12 p = (p.s1, p.s2)

-- Moves a draw by `w - v`.
moved : ℕ → ℕ → ℕ → ℕ → ℕ
moved m v w x = (x + (w + m - v)) % m

-- The draws for `w` that look like the draws `d` for `v`.
unfoldable pub resample : Corrupted → ℕ → ℕ → ℕ → Draws → Draws
unfolding moved
resample servers_01 m v w d = d
resample servers_02 m v w d = record { first = d.first; second = moved m v w d.second }
resample servers_12 m v w d = record { first = moved m v w d.first; second = d.second }

moved_back : (m v w x : ℕ) → v < m → w < m → x < m → moved m w v (moved m v w x) ≡ x
unfolding moved
moved_back m v w x hv hw hx =
    mod-add-mod (x + (w + m - v)) m (v + m - w)
    ∙ ap (λ (t : ℕ). t % m) (omega arith)
    ∙ mod_unique 2 x m hx

pieces_sum :
    (m : ℕ) (d : Draws) (v : ℕ)
    → IsDrawn m d
    → v < m
    → ((split_value m d v).s2 + (d.first + d.second)) % m ≡ v
unfolding split_value
pieces_sum m d v h q = ap (λ (t : ℕ). t % m) (omega arith) ∙ sum-split_value m d v h q

s2-lt : (m : ℕ) (d : Draws) (v : ℕ) → v < m → (split_value m d v).s2 < m
unfolding split_value
s2-lt m d v q = mod-lt _ (omega arith)

-- Two sharings, of `v` and of `w`, have the same third piece when their draws differ by `w - v`.
same_third :
    (m : ℕ) (d e : Draws) (v w : ℕ)
    → IsDrawn m d
    → IsDrawn m e
    → v < m
    → w < m
    → (e.first + e.second) % m ≡ (d.first + d.second + (w + m - v)) % m
    → (split_value m e w).s2 ≡ (split_value m d v).s2
same_third m d e v w hd he hv hw h =
    sym (mod-eq_of_lt (s2-lt m e w hw))
    ∙ mod_cancel a b (e.first + e.second) m (omega arith) (pieces_sum m e w he hw ∙ sym shifted)
    ∙ mod-eq_of_lt (s2-lt m d v hv)
  where
    a : ℕ
    a = (split_value m e w).s2

    b : ℕ
    b = (split_value m d v).s2

    shifted : (b + (e.first + e.second)) % m ≡ w
    shifted =
        sym (add-mod-mod b (e.first + e.second) m)
        ∙ ap (λ (t : ℕ). (b + t) % m) h
        ∙ add-mod-mod b (d.first + d.second + (w + m - v)) m
        ∙ ap (λ (t : ℕ). t % m) (omega arith)
        ∙ sym (mod-add-mod (b + (d.first + d.second)) m (w + m - v))
        ∙ ap (λ (t : ℕ). (t + (w + m - v)) % m) (pieces_sum m d v hd hv)
        ∙ ap (λ (t : ℕ). t % m) (omega arith)
        ∙ mod_unique 1 w m hw

-- For any two corrupted servers and any two field elements v and w, the draws of a sharing of v,
-- being in range, are renamed to draws in range under which a sharing of w shows the two servers
-- the same pieces, and the converse renaming undoes it.
pub resample_lem :
    (c : Corrupted) (m v w : ℕ) (d : Draws)
    → IsDrawn m d
    → v < m
    → w < m
    → IsDrawn m (resample c m v w d)
      × (view c (split_value m (resample c m v w d) w) ≡ view c (split_value m d v))
      × (resample c m w v (resample c m v w d) ≡ d)
unfolding resample split_value
resample_lem servers_01 m v w d h hv hw = (h, refl, refl)
resample_lem servers_02 m v w d h hv hw =
    let e : Draws = record { first = d.first; second = moved m v w d.second } in
    let drawn : IsDrawn m e = (h.0, mod-lt _ (omega arith)) in
    (
      drawn,
      ap (λ (t : ℕ). (d.first, t))
          (same_third m d e v w h drawn hv hw
            (add-mod-mod d.first (d.second + (w + m - v)) m ∙ ap (λ (t : ℕ). t % m) (omega arith))),
      ap (λ (t : ℕ). record { first = d.first; second = t }) (moved_back m v w d.second hv hw h.1),
    )
resample_lem servers_12 m v w d h hv hw =
    let e : Draws = record { first = moved m v w d.first; second = d.second } in
    let drawn : IsDrawn m e = (mod-lt _ (omega arith), h.1) in
    (
      drawn,
      ap (λ (t : ℕ). (d.second, t))
          (same_third m d e v w h drawn hv hw
            (mod-add-mod (d.first + (w + m - v)) m d.second ∙ ap (λ (t : ℕ). t % m) (omega arith))),
      ap (λ (t : ℕ). record { first = t; second = d.second }) (moved_back m v w d.first hv hw h.0),
    )
