-- ===== src/Pages/Ranking/Order.antt =====
-- The order in which `evaluate_paged_cleartext` sorts its candidates, and the sorted list.
use mathlib.Core.List.{Permᴰ}
use mathlib.Core.List.Permᴰ
use fed_kg_rag_secure_impl.Prelude.{
  ℕ, ◌≡◌, ◌<◌, ◌≤◌, ◌⊎◌, inl, inr, refl, Bool, true, false, List, [], ◌∷◌, arith, All, ltb, ◌==◌,
  Bool-cases, ltb→lt,
}
use fed_kg_rag_secure_impl.Python.Sequence.{sort_by, insert_by, All-insert_by}
use fed_kg_rag_secure_impl.Pages.Build.{lex}
use fed_kg_rag_secure_impl.Pages.Evaluate.{Candidate, candidate_le}

-- The first number is smaller, or both are the same and what follows decides.
abbrev First : ℕ → ℕ → Type 0 → Type 0
First x y later = (x < y) ⊎ ((x ≡ y) × later)

-- A higher score comes first; then the path of the earlier slots, and the smaller identifiers.
abbrev pub IsBefore : Candidate → Candidate → Type 0
IsBefore a b =
    First b.score a.score (
      First a.order b.order (First a.left b.left (First a.right b.right (a.terminal ≤ b.terminal))))

-- Every candidate comes before all later ones.
abbrev pub IsRanked : List Candidate → Type 0
IsRanked [] = Unit
IsRanked (a ∷ cs) = All (λ (b : Candidate). IsBefore a b) cs × IsRanked cs

First-trans : {x y z : ℕ} {P Q R : Type 0} → (P → Q → R) → First x y P → First y z Q → First x z R
First-trans later (inl h) (inl k) = inl (omega (arith, h, k))
First-trans later (inl h) (inr k) = inl (omega (arith, h, k.0))
First-trans later (inr h) (inl k) = inl (omega (arith, h.0, k))
First-trans later (inr h) (inr k) = inr (omega (arith, h.0, k.0), later h.1 k.1)

First-descends :
    {x y z : ℕ} {P Q R : Type 0} → (P → Q → R) → First y x P → First z y Q → First z x R
First-descends later h k = First-trans (λ q p. later p q) k h

IsBefore-trans : (a b c : Candidate) → IsBefore a b → IsBefore b c → IsBefore a c
IsBefore-trans a b c =
    First-descends (First-trans (First-trans (First-trans (λ h k. omega (arith, h, k)))))

lex-First : (x y : ℕ) (rest : Bool) → lex x y rest ≡ true → First x y (rest ≡ true)
lex-First x y rest h = elim (Bool-cases (ltb x y)) [
  | inl below ↦ inl (ltb→lt x y below)
  | inr above ↦ inr (ground arith)
]

-- What a comparison refuses holds the other way round.
lex-refused : (x y : ℕ) (rest : Bool) → lex x y rest ≡ false → First y x (rest ≡ false)
lex-refused x y rest h = elim (Bool-cases (x == y)) [
  | inl same ↦ inr (ground arith)
  | inr apart ↦ inl (ground arith)
]

First-map : {x y : ℕ} {P Q : Type 0} → (P → Q) → First x y P → First x y Q
First-map f (inl h) = inl h
First-map f (inr h) = inr (h.0, f h.1)

candidate_le-IsBefore : (a b : Candidate) → candidate_le a b ≡ true → IsBefore a b
candidate_le-IsBefore a b h =
    First-map
      (λ h1.
        First-map
          (λ h2.
            First-map (λ h3. First-map (λ h4. ground arith) (lex-First a.right b.right _ h3))
              (lex-First a.left b.left _ h2))
          (lex-First a.order b.order _ h1))
      (lex-First b.score a.score _ h)

candidate_le-refused : (a b : Candidate) → candidate_le a b ≡ false → IsBefore b a
candidate_le-refused a b h =
    First-map
      (λ h1.
        First-map
          (λ h2.
            First-map (λ h3. First-map (λ h4. ground arith) (lex-refused a.right b.right _ h3))
              (lex-refused a.left b.left _ h2))
          (lex-refused a.order b.order _ h1))
      (lex-refused b.score a.score _ h)

All-behind :
    (a b : Candidate) (cs : List Candidate)
    → IsBefore a b
    → All (λ (c : Candidate). IsBefore b c) cs
    → All (λ (c : Candidate). IsBefore a c) cs
All-behind a b [] h k = tt
All-behind a b (c ∷ cs) h k = (IsBefore-trans a b c h k.0, All-behind a b cs h k.1)

insert_by-IsRanked :
    (a : Candidate) (cs : List Candidate) → IsRanked cs → IsRanked (insert_by candidate_le a cs)
insert_by-IsRanked a [] h = (tt, tt)
insert_by-IsRanked a (b ∷ cs) h = elim (Bool-cases (candidate_le a b)) [
  | inl before ↦
      let first = candidate_le-IsBefore a b before in
      rw before ((first, All-behind a b cs first h.0), h)
  | inr behind ↦ rw behind (
    All-insert_by candidate_le (λ (c : Candidate). IsBefore b c) a cs
        (candidate_le-refused a b behind) h.0,
    insert_by-IsRanked a cs h.1,
  )
]

pub sort_by-IsRanked : (cs : List Candidate) → IsRanked (sort_by candidate_le cs)
unfolding sort_by
sort_by-IsRanked [] = tt
sort_by-IsRanked (a ∷ cs) = insert_by-IsRanked a (sort_by candidate_le cs) (sort_by-IsRanked cs)

insert_by-Permᴰ :
    (a : Candidate) (cs : List Candidate) → Permᴰ (insert_by candidate_le a cs) (a ∷ cs)
insert_by-Permᴰ a [] = Permᴰ.refl _
insert_by-Permᴰ a (b ∷ cs) = elim (Bool-cases (candidate_le a b)) [
  | inl before ↦ rw before (Permᴰ.refl _)
  | inr behind ↦
      rw behind (Permᴰ.trans (Permᴰ.cons refl (insert_by-Permᴰ a cs)) (Permᴰ.swap refl refl))
]

pub sort_by-Permᴰ : (cs : List Candidate) → Permᴰ (sort_by candidate_le cs) cs
unfolding sort_by
sort_by-Permᴰ [] = Permᴰ.refl _
sort_by-Permᴰ (a ∷ cs) =
    Permᴰ.trans (insert_by-Permᴰ a (sort_by candidate_le cs)) (Permᴰ.cons refl (sort_by-Permᴰ cs))
