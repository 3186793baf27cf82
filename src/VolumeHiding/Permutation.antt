-- ===== src/VolumeHiding/Permutation.antt =====
-- volume_hiding.py, `apply_permutation`: the moved items.
use fed_kg_rag_secure_impl.Prelude.{
  ℕ, zero, suc, ◌+◌, ◌≡◌, ◌≢◌, ap, sym, subst, ◌∙◌, arith, List, [], ◌∷◌, some, get_elem?, All,
  Distinct, get_elem?-set_self, get_elem?-set_ne,
}
use fed_kg_rag_secure_impl.Python.{ok, >>=-eq-ok, ok-injective}
use fed_kg_rag_secure_impl.Python.Sequence.{get_item, set_item, set_item-set, get_item-get_elem?}
use fed_kg_rag_secure_impl.VolumeHiding.{move_items}

module _ {ℓ} {A : Type ℓ} where
  move_items_keeps :
      (items : List A) (original : ℕ) (permutation : List ℕ) (moved : List A) {out : List A} (t : ℕ)
      → All (λ (y : ℕ). y ≢ t) permutation
      → move_items items original permutation moved ≡ ok out
      → get_elem? out t ≡ get_elem? moved t
  unfolding move_items
  move_items_keeps items original [] moved t apart h =
      ap (λ l. get_elem? l t) (sym (ok-injective h))
  move_items_keeps items original (target ∷ permutation) moved t apart h =
      let (item, read, h1) = >>=-eq-ok (get_item items original) _ h in
      let (next, write, h2) = >>=-eq-ok (set_item moved target item) _ h1 in
      move_items_keeps items (original + 1) permutation next t apart.1 h2
      ∙ ap (λ l. get_elem? l t) (set_item-set moved target item write).0
      ∙ get_elem?-set_ne moved target t item apart.0

  -- The item of every position stands at its target.
  pub move_items_lem :
      (items : List A) (original : ℕ) (permutation : List ℕ) (moved : List A) {out : List A} (i : ℕ)
      {t : ℕ}
      → Distinct permutation
      → move_items items original permutation moved ≡ ok out
      → get_elem? permutation i ≡ some t
      → get_elem? out t ≡ get_elem? items (original + i)
  unfolding move_items
  move_items_lem items original [] moved i distinct h at = cc
  move_items_lem items original (target ∷ permutation) moved {out} zero {t} distinct h at =
      let (item, read, h1) = >>=-eq-ok (get_item items original) _ h in
      let (next, write, h2) = >>=-eq-ok (set_item moved target item) _ h1 in
      let same : target ≡ t = ground arith in
      let inside = (set_item-set moved target item write).1 in
      subst (λ (k : ℕ). get_elem? out k ≡ get_elem? items (original + 0)) same
        (move_items_keeps items (original + 1) permutation next target distinct.0 h2
          ∙ ap (λ l. get_elem? l target) (set_item-set moved target item write).0
          ∙ get_elem?-set_self moved target item inside
          ∙ sym (get_item-get_elem? items original read)
          ∙ ap (λ (k : ℕ). get_elem? items k) (omega arith))
  move_items_lem items original (target ∷ permutation) moved (suc i) distinct h at =
      let (item, read, h1) = >>=-eq-ok (get_item items original) _ h in
      let (next, write, h2) = >>=-eq-ok (set_item moved target item) _ h1 in
      move_items_lem items (original + 1) permutation next i distinct.1 h2 at
      ∙ ap (λ (k : ℕ). get_elem? items k) (omega arith)
