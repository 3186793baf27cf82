-- ===== src/XorPir/Algebra.antt =====
-- The laws of `zip_xor`, and the answer of a server as a sum of the selected records.
use mathlib.Core.Option.{some-injective}
use fed_kg_rag_secure_impl.Prelude.{
  ℕ, zero, suc, ◌<◌, ◌≡◌, refl, sym, ap, ap₂, ◌∙◌, true, some, List, [], ◌∷◌, arith, length,
  replicate, set, get_elem?, All, bit_xor, ◌==◌, if◌then◌else◌, length-replicate, Bool-cases, inl,
  inr,
}
use fed_kg_rag_secure_impl.Prelude.Xor.{bit_xor_assoc, bit_xor_comm, zero-bit_xor, bit_xor_self}
use fed_kg_rag_secure_impl.Python.{ok}
use fed_kg_rag_secure_impl.XorPir.{zip_xor, xor_bytes, xor_selected}

abbrev pub zeros : ℕ → List ℕ
zeros w = replicate w 0

pub zip_xor_assoc : (x y z : List ℕ) → zip_xor (zip_xor x y) z ≡ zip_xor x (zip_xor y z)
unfolding zip_xor
zip_xor_assoc [] y z = refl
zip_xor_assoc (a ∷ x) [] z = refl
zip_xor_assoc (a ∷ x) (b ∷ y) [] = refl
zip_xor_assoc (a ∷ x) (b ∷ y) (c ∷ z) = ap₂ ◌∷◌ (bit_xor_assoc a b c) (zip_xor_assoc x y z)

pub zip_xor_comm : (x y : List ℕ) → zip_xor x y ≡ zip_xor y x
unfolding zip_xor
zip_xor_comm [] [] = refl
zip_xor_comm [] (b ∷ y) = refl
zip_xor_comm (a ∷ x) [] = refl
zip_xor_comm (a ∷ x) (b ∷ y) = ap₂ ◌∷◌ (bit_xor_comm a b) (zip_xor_comm x y)

pub zip_xor_self : (x : List ℕ) → zip_xor x x ≡ zeros (length x)
unfolding zip_xor
zip_xor_self [] = refl
zip_xor_self (a ∷ x) = ap₂ ◌∷◌ (bit_xor_self a) (zip_xor_self x)

pub zeros-zip_xor : (w : ℕ) (x : List ℕ) → length x ≡ w → zip_xor (zeros w) x ≡ x
unfolding zip_xor
zeros-zip_xor zero [] h = refl
zeros-zip_xor zero (a ∷ x) h = absurd (omega arith)
zeros-zip_xor (suc w) [] h = absurd (omega arith)
zeros-zip_xor (suc w) (a ∷ x) h = ap₂ ◌∷◌ (zero-bit_xor a) (zeros-zip_xor w x (omega arith))

pub length-zip_xor : (x y : List ℕ) (w : ℕ) → length x ≡ w → length y ≡ w → length (zip_xor x y) ≡ w
unfolding zip_xor
length-zip_xor [] y w h k = h
length-zip_xor (a ∷ x) [] w h k = k
length-zip_xor (a ∷ x) (b ∷ y) zero h k = absurd (omega arith)
length-zip_xor (a ∷ x) (b ∷ y) (suc w) h k =
    ap suc (length-zip_xor x y w (omega arith) (omega arith))

-- `xor_bytes` on two strings of the same length.
pub xor_bytes-ok :
    (x y : List ℕ) (w : ℕ) → length x ≡ w → length y ≡ w → xor_bytes x y ≡ ok (zip_xor x y)
unfolding xor_bytes
xor_bytes-ok x y w h k = let same : (length x == length y) ≡ true = ground arith in rw same

-- A record of width `w` if the bit is set.
abbrev pub chosen : ℕ → ℕ → List ℕ → List ℕ
chosen w b r = if b == 0 then zeros w else r

-- The sum of the records whose bits are set.
unfoldable pub selected : ℕ → List ℕ → List (List ℕ) → List ℕ
selected w [] rs = zeros w
selected w (b ∷ bits) [] = zeros w
selected w (b ∷ bits) (r ∷ rs) = zip_xor (chosen w b r) (selected w bits rs)

abbrev pub HasWidth : ℕ → List ℕ → Type 0
HasWidth w x = length x ≡ w

-- A bit is zero or one.
abbrev pub IsBit : ℕ → Type 0
IsBit b = b < 2

pub length-chosen : (w b : ℕ) (r : List ℕ) → HasWidth w r → HasWidth w (chosen w b r)
length-chosen w b r h = ground (arith, length-replicate {A = ℕ} w 0)

pub length-selected :
    (w : ℕ) (bits : List ℕ) (rs : List (List ℕ))
    → All (HasWidth w) rs
    → HasWidth w (selected w bits rs)
unfolding selected
length-selected w [] rs h = length-replicate {A = ℕ} w 0
length-selected w (b ∷ bits) [] h = length-replicate {A = ℕ} w 0
length-selected w (b ∷ bits) (r ∷ rs) h =
    length-zip_xor (chosen w b r) (selected w bits rs) w (length-chosen w b r h.0)
      (length-selected w bits rs h.1)

-- Four summands, the middle two exchanged.
pub exchange :
    (a b c d : List ℕ) → zip_xor (zip_xor a b) (zip_xor c d) ≡ zip_xor (zip_xor a c) (zip_xor b d)
exchange a b c d =
    zip_xor_assoc a b (zip_xor c d)
    ∙ ap (zip_xor a) (
        sym (zip_xor_assoc b c d)
        ∙ ap (λ (t : List ℕ). zip_xor t d) (zip_xor_comm b c)
        ∙ zip_xor_assoc c b d)
    ∙ sym (zip_xor_assoc a c (zip_xor b d))

chosen-xor :
    (w b c : ℕ) (r : List ℕ)
    → IsBit b
    → IsBit c
    → HasWidth w r
    → chosen w (bit_xor b c) r ≡ zip_xor (chosen w b r) (chosen w c r)
chosen-xor w zero zero r h k l = sym (zeros-zip_xor w (zeros w) (length-replicate {A = ℕ} w 0))
chosen-xor w zero (suc zero) r h k l = sym (zeros-zip_xor w r l)
chosen-xor w (suc zero) zero r h k l = sym (zip_xor_comm r (zeros w) ∙ zeros-zip_xor w r l)
chosen-xor w (suc zero) (suc zero) r h k l = sym (zip_xor_self r ∙ ap zeros l)
chosen-xor w zero (suc (suc c)) r h k l = absurd (omega arith)
chosen-xor w (suc zero) (suc (suc c)) r h k l = absurd (omega arith)
chosen-xor w (suc (suc b)) c r h k l = absurd (omega arith)

-- The answer is additive in the vector of bits.
pub selected-zip_xor :
    (w : ℕ) (u v : List ℕ) (rs : List (List ℕ))
    → length u ≡ length v
    → All IsBit u
    → All IsBit v
    → All (HasWidth w) rs
    → selected w (zip_xor u v) rs ≡ zip_xor (selected w u rs) (selected w v rs)
unfolding selected zip_xor
selected-zip_xor w [] [] rs same h k l =
    sym (zeros-zip_xor w (zeros w) (length-replicate {A = ℕ} w 0))
selected-zip_xor w [] (c ∷ v) rs same h k l = absurd (omega arith)
selected-zip_xor w (b ∷ u) [] rs same h k l = absurd (omega arith)
selected-zip_xor w (b ∷ u) (c ∷ v) [] same h k l =
    sym (zeros-zip_xor w (zeros w) (length-replicate {A = ℕ} w 0))
selected-zip_xor w (b ∷ u) (c ∷ v) (r ∷ rs) same h k l =
    ap₂ zip_xor (chosen-xor w b c r h.0 k.0 l.0)
      (selected-zip_xor w u v rs (omega arith) h.1 k.1 l.1)
    ∙ exchange (chosen w b r) (chosen w c r) (selected w u rs) (selected w v rs)

pub selected-zeros : (w n : ℕ) (rs : List (List ℕ)) → selected w (zeros n) rs ≡ zeros w
unfolding selected
selected-zeros w zero rs = refl
selected-zeros w (suc n) [] = refl
selected-zeros w (suc n) (r ∷ rs) =
    ap (zip_xor (zeros w)) (selected-zeros w n rs)
    ∙ zeros-zip_xor w (zeros w) (length-replicate {A = ℕ} w 0)

-- A unit vector selects its record.
pub selected-unit :
    (w i : ℕ) (rs : List (List ℕ)) {r : List ℕ}
    → All (HasWidth w) rs
    → get_elem? rs i ≡ some r
    → selected w (set (zeros (length rs)) i 1) rs ≡ r
unfolding selected
selected-unit w i [] h k = cc
selected-unit w zero (x ∷ rs) {r} h k =
    ap₂ zip_xor (some-injective x r k) (selected-zeros w (length rs) rs)
    ∙ zip_xor_comm r (zeros w)
    ∙ zeros-zip_xor w r (ap length (sym (some-injective x r k)) ∙ h.0)
selected-unit w (suc i) (x ∷ rs) h k =
    ap (zip_xor (zeros w)) (selected-unit w i rs h.1 k)
    ∙ zeros-zip_xor w _ (ap length (sym (selected-unit w i rs h.1 k)) ∙ length-selected w _ rs h.1)

chosen_step :
    (w b : ℕ) (r start : List ℕ)
    → HasWidth w start
    → HasWidth w r
    → (if b == 0 then ok start else xor_bytes start r) ≡ ok (zip_xor start (chosen w b r))
chosen_step w b r start h k = elim (Bool-cases (b == 0)) [
  | inl off ↦ rw off (ap ok (sym (zip_xor_comm start (zeros w) ∙ zeros-zip_xor w start h)))
  | inr on ↦ rw on (xor_bytes-ok start r w h k)
]

-- The loop of the server adds the selected records to what it starts from.
pub xor_selected-selected :
    (w : ℕ) (bits : List ℕ) (rs : List (List ℕ)) (start : List ℕ)
    → length bits ≡ length rs
    → HasWidth w start
    → All (HasWidth w) rs
    → xor_selected bits rs start ≡ ok (zip_xor start (selected w bits rs))
unfolding xor_selected selected
xor_selected-selected w [] [] start same h k =
    ap ok (sym (zip_xor_comm start (zeros w) ∙ zeros-zip_xor w start h))
xor_selected-selected w [] (r ∷ rs) start same h k = absurd (omega arith)
xor_selected-selected w (b ∷ bits) [] start same h k = absurd (omega arith)
xor_selected-selected w (b ∷ bits) (r ∷ rs) start same h k =
    rw
      (
        chosen_step w b r start h k.0,
        xor_selected-selected w bits rs (zip_xor start (chosen w b r)) (omega arith)
            (length-zip_xor start (chosen w b r) w h (length-chosen w b r k.0)) k.1,
      )
      (ap ok (zip_xor_assoc start (chosen w b r) (selected w bits rs)))
