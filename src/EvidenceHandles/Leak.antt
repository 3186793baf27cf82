-- ===== src/EvidenceHandles/Leak.antt =====
-- evidence_handles.py, `handles_leak_owner`: the ranges of the owners, which the code tests when at
-- least two owners hold edges.
use fed_kg_rag_secure_impl.Prelude.{
  ℕ, ◌<◌, ◌≤◌, ◌≡◌, ◌↔◌, inl, inr, refl, arith, String, Bool, Bool-cases, true, List, [], ◌∷◌, All,
  ltb, ◌&&◌,
}
use fed_kg_rag_secure_impl.Python.Sequence.{
  sort_by, insert_by, insert_by-All, sort_by-All, All-sort_by, All-insert_by,
}
use fed_kg_rag_secure_impl.EvidenceHandles.{
  Span, span_le, in_a_row, disjoint_ranges, handle_ranges, least, greatest,
}

-- The handle lies in the range.
pub record Within (h : ℕ) (a : Span) : Type 0 where
  pub above : a.1.0 ≤ h
  pub below : h ≤ a.1.1

-- No handle lies in both ranges.
Apart : Span → Span → Type 0
Apart a b = (h : ℕ) → Within h a → Within h b → ⊥

-- No handle lies in the ranges of two owners.
pub NamesOwner : List Span → Type 0
NamesOwner [] = Unit
NamesOwner (a ∷ spans) = All (Apart a) spans × NamesOwner spans

-- The least handle of a range is at most its greatest.
IsSpan : Span → Type 0
IsSpan a = a.1.0 ≤ a.1.1

Apart-sym : (a b : Span) → Apart a b → Apart b a
unfolding Apart
Apart-sym a b h n k l = h n l k

insert_by-NamesOwner :
    (a : Span) (spans : List Span)
    → All (Apart a) spans
    → NamesOwner spans
    → NamesOwner (insert_by span_le a spans)
unfolding NamesOwner
insert_by-NamesOwner a [] h k = (tt, tt)
insert_by-NamesOwner a (b ∷ spans) h k = elim (Bool-cases (span_le a b)) [
  | inl before ↦ rw before (h, k)
  | inr behind ↦ rw behind (
    All-insert_by span_le (Apart b) a spans (Apart-sym a b h.0) k.0,
    insert_by-NamesOwner a spans h.1 k.1,
  )
]

NamesOwner-insert_by :
    (a : Span) (spans : List Span)
    → NamesOwner (insert_by span_le a spans)
    → All (Apart a) spans × NamesOwner spans
unfolding NamesOwner
NamesOwner-insert_by a [] h = (tt, tt)
NamesOwner-insert_by a (b ∷ spans) h = elim (Bool-cases (span_le a b)) [
  | inl before ↦ rw before at h
  | inr behind ↦
      let split = rw behind at h in
      let (apart, rest) = NamesOwner-insert_by a spans split.1 in
      let (new, others) = insert_by-All span_le (Apart b) a spans split.0 in
      ((Apart-sym b a new, apart), (others, rest))
]

sort_by-NamesOwner : (spans : List Span) → NamesOwner spans ↔ NamesOwner (sort_by span_le spans)
unfolding NamesOwner sort_by
sort_by-NamesOwner [] = (λ h. h, λ h. h)
sort_by-NamesOwner (a ∷ spans) = (
  λ h.
      insert_by-NamesOwner a (sort_by span_le spans) (All-sort_by span_le (Apart a) spans h.0)
        ((sort_by-NamesOwner spans).0 h.1),
  λ h.
      let (apart, rest) = NamesOwner-insert_by a (sort_by span_le spans) h in
      (sort_by-All span_le (Apart a) spans apart, (sort_by-NamesOwner spans).1 rest),
)

-- Neighbours are ordered by their least handles.
InOrder : List Span → Type 0
InOrder [] = Unit
InOrder (a ∷ []) = Unit
InOrder (a ∷ b ∷ spans) = (a.1.0 ≤ b.1.0) × InOrder (b ∷ spans)

insert_by-InOrder :
    (a : Span) (spans : List Span) → InOrder spans → InOrder (insert_by span_le a spans)
unfolding InOrder
insert_by-InOrder a [] h = tt
insert_by-InOrder a (b ∷ []) h = elim (Bool-cases (span_le a b)) [
  | inl before ↦ rw before (ground arith, tt)
  | inr behind ↦ rw behind (ground arith, tt)
]
insert_by-InOrder a (b ∷ c ∷ spans) h = elim (Bool-cases (span_le a b)) [
  | inl before ↦ rw before (ground arith, h)
  | inr behind ↦
      let rest = insert_by-InOrder a (c ∷ spans) h.1 in
      rw behind (elim (Bool-cases (span_le a c)) [
        | inl between ↦ rw between (ground arith, rw between at rest)
        | inr later ↦ rw later (h.0, rw later at rest)
      ])
]

sort_by-InOrder : (spans : List Span) → InOrder (sort_by span_le spans)
unfolding sort_by InOrder
sort_by-InOrder [] = tt
sort_by-InOrder (a ∷ spans) = insert_by-InOrder a (sort_by span_le spans) (sort_by-InOrder spans)

-- What is below the first range of a row is below all.
in_a_row-All :
    (n : ℕ) (a : Span) (spans : List Span)
    → All IsSpan (a ∷ spans)
    → in_a_row (a ∷ spans) ≡ true
    → n < a.1.0
    → All (λ (b : Span). n < b.1.0) (a ∷ spans)
unfolding in_a_row IsSpan
in_a_row-All n a [] wide row h = (h, tt)
in_a_row-All n a (b ∷ spans) wide row h =
    let (first, rest) = both (ltb a.1.1 b.1.0) (in_a_row (b ∷ spans)) row in
    (h, in_a_row-All n b spans wide.1 rest (ground (arith, wide.0)))
  where
    both : (x y : Bool) → (x && y) ≡ true → (x ≡ true) × (y ≡ true)
    both x y e = ground arith

in_a_row-NamesOwner :
    (spans : List Span) → All IsSpan spans → in_a_row spans ≡ true → NamesOwner spans
unfolding in_a_row NamesOwner IsSpan Apart
in_a_row-NamesOwner [] wide row = tt
in_a_row-NamesOwner (a ∷ []) wide row = (tt, tt)
in_a_row-NamesOwner (a ∷ b ∷ spans) wide row =
    let (first, rest) = both (ltb a.1.1 b.1.0) (in_a_row (b ∷ spans)) row in
    (
      all_apart (b ∷ spans) (in_a_row-All a.1.1 b spans wide.1 rest (ground arith)),
      in_a_row-NamesOwner (b ∷ spans) wide.1 rest,
    )
  where
    both : (x y : Bool) → (x && y) ≡ true → (x ≡ true) × (y ≡ true)
    both x y e = ground arith

    all_apart : (l : List Span) → All (λ (c : Span). a.1.1 < c.1.0) l → All (Apart a) l
    all_apart [] m = tt
    all_apart (c ∷ l) m =
        (λ h in_a in_c. omega (arith, m.0, in_a.below, in_c.above), all_apart l m.1)

NamesOwner-in_a_row :
    (spans : List Span)
    → All IsSpan spans
    → InOrder spans
    → NamesOwner spans
    → in_a_row spans ≡ true
unfolding in_a_row NamesOwner IsSpan Apart InOrder
NamesOwner-in_a_row [] wide order h = refl
NamesOwner-in_a_row (a ∷ []) wide order h = refl
NamesOwner-in_a_row (a ∷ b ∷ spans) wide order h =
    let rest = NamesOwner-in_a_row (b ∷ spans) wide.1 order.1 h.1 in
    elim (Bool-cases (ltb a.1.1 b.1.0)) [
      | inl before ↦ rw (before, rest) refl
      | inr meet ↦ absurd (
          h.0.0 b.1.0 record { above = order.0; below = ground arith }
            record { above = omega arith; below = wide.1.0 })
    ]

least-le : (n : ℕ) (handles : List ℕ) → least n handles ≤ n
least-le n [] = omega arith
least-le n (m ∷ handles) = omega arith

greatest-ge : (n : ℕ) (handles : List ℕ) → n ≤ greatest n handles
greatest-ge n [] = omega arith
greatest-ge n (m ∷ handles) = omega arith

handle_ranges-IsSpan : (owners : List (String × List ℕ)) → All IsSpan (handle_ranges owners)
unfolding handle_ranges IsSpan
handle_ranges-IsSpan [] = tt
handle_ranges-IsSpan ((owner, []) ∷ owners) = handle_ranges-IsSpan owners
handle_ranges-IsSpan ((owner, h ∷ handles) ∷ owners) =
    (omega (arith, least-le h handles, greatest-ge h handles), handle_ranges-IsSpan owners)

-- The detector finds the ranges of the owners disjoint exactly when no number lies in the ranges
-- of two owners that hold edges.
pub disjoint_ranges-iff_NamesOwner :
    (owners : List (String × List ℕ))
    → (disjoint_ranges (handle_ranges owners) ≡ true) ↔ NamesOwner (handle_ranges owners)
unfolding disjoint_ranges
disjoint_ranges-iff_NamesOwner owners =
    let ranges = handle_ranges owners in
    let spans = sort_by span_le ranges in
    let wide = All-sort_by span_le IsSpan ranges (handle_ranges-IsSpan owners) in
    (
      λ h. (sort_by-NamesOwner ranges).1 (in_a_row-NamesOwner spans wide h),
      λ h.
          NamesOwner-in_a_row spans wide (sort_by-InOrder ranges) ((sort_by-NamesOwner ranges).0 h),
    )
