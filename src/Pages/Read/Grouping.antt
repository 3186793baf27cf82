-- ===== src/Pages/Read/Grouping.antt =====
-- The grouping of the edges holds every edge under its key, in input order, and sorting the groups
-- by key keeps them.
use fed_kg_rag_secure_impl.Prelude.{
  ℕ, ◌≡◌, refl, sym, ap, ◌∙◌, subst, Bool, true, false, Option, none, some, List, [], ◌∷◌, ◌++◌,
  arith, inl, inr, Bool-cases, if◌then◌else◌, All,
}
use mathlib.Core.List.{append_assoc, append-nil}
use fed_kg_rag_secure_impl.Python.{
  ok, >>=-eq-ok, ok-injective, map_result, lookup, insert, lookup-insert, pair_key, same_pair,
  same_pair→eq,
}
use fed_kg_rag_secure_impl.Python.Sequence.{sort_by, insert_by}
use fed_kg_rag_secure_impl.Config.{PublicConfig}
use fed_kg_rag_secure_impl.Packed.Edges.{Row, Edge, validated_edge}
use fed_kg_rag_secure_impl.Packed.Slots.{HasSlots}
use fed_kg_rag_secure_impl.Pages.Build.{
  Entry, Groups, with_entry, add_entry, entry_of_edge, group_rows, key_le,
}
use fed_kg_rag_secure_impl.Pages.Read.Slots.{HasTarget}
use fed_kg_rag_secure_impl.Pages.Read.Stored.{Unique}

-- The entries of the edges with a key, in input order.
abbrev pub entries_of : ℕ × ℕ → List Edge → List Entry
entries_of key [] = []
entries_of key (e ∷ es) =
    if same_pair key (e.source, e.relation)
    then entry_of_edge e ∷ entries_of key es
    else entries_of key es

-- The entries of a key that may be absent.
abbrev pub group_of : Option (List Entry) → List Entry
group_of none = []
group_of (some es) = es

group_of-with_entry : (o : Option (List Entry)) (e : Entry) → with_entry o e ≡ group_of o ++ e ∷ []
group_of-with_entry none e = refl
group_of-with_entry (some es) e = refl

apart_sym : (a b : ℕ × ℕ) → same_pair a b ≡ false → same_pair b a ≡ false
apart_sym a b h = ground arith

group_of-add_entry :
    (key other : ℕ × ℕ) (e : Entry) (groups : Groups)
    → group_of (lookup key (add_entry other e groups))
      ≡ group_of (lookup key groups) ++ (if same_pair key other then e ∷ [] else [])
group_of-add_entry key other e groups =
    ap group_of (lookup-insert other key (with_entry (lookup other groups) e) groups)
    ∙ go (same_pair key other) refl
  where
    go :
        (b : Bool)
        → same_pair key other ≡ b
        → group_of (if b then some (with_entry (lookup other groups) e) else lookup key groups)
          ≡ group_of (lookup key groups) ++ (if b then e ∷ [] else [])
    go true h =
        group_of-with_entry (lookup other groups) e
        ∙ ap (λ (k : ℕ × ℕ). group_of (lookup k groups) ++ e ∷ []) (sym (same_pair→eq key other h))
    go false h = sym (append-nil (group_of (lookup key groups)))

-- An entry put behind a list, with what follows.
behind :
    (b : Bool) (l rest : List Entry) (e : Entry)
    → (l ++ (if b then e ∷ [] else [])) ++ rest ≡ l ++ (if b then e ∷ rest else rest)
behind true l rest e = append_assoc l (e ∷ []) rest
behind false l rest e = ap (λ (x : List Entry). x ++ rest) (append-nil l)

pub group_rows-entries_of :
    (base : PublicConfig) (rows : List Row) (groups : Groups) {out : Groups}
    → group_rows base rows groups ≡ ok out
    → (es : List Edge) × (map_result (validated_edge base) rows ≡ ok es)
      × ((key : ℕ × ℕ)
          → group_of (lookup key out) ≡ group_of (lookup key groups) ++ entries_of key es)
unfolding group_rows
group_rows-entries_of base [] groups h = (
  [],
  refl,
  λ key. ap (λ (g : Groups). group_of (lookup key g)) (sym (ok-injective h)) ∙ sym (append-nil _),
)
group_rows-entries_of base (row ∷ rows) groups {out} h =
    let (e, v, rest) =
      >>=-eq-ok (validated_edge base row)
        (λ e. group_rows base rows (add_entry (e.source, e.relation) (entry_of_edge e) groups)) h in
    let (es, vs, all) = group_rows-entries_of base rows _ rest in
    (
      e ∷ es,
      rw (v, vs),
      λ key.
          all key
          ∙ ap (λ (l : List Entry). l ++ entries_of key es)
              (group_of-add_entry key (e.source, e.relation) (entry_of_edge e) groups)
          ∙ behind (same_pair key (e.source, e.relation)) (group_of (lookup key groups))
              (entries_of key es) (entry_of_edge e),
    )

Unique-insert :
    (key : ℕ × ℕ) (es : List Entry) (groups : Groups)
    → Unique groups
    → Unique (insert key es groups)
Unique-insert key es [] u = (refl, tt)
Unique-insert key es ((other, others) ∷ groups) u = elim (Bool-cases (same_pair key other)) [
  | inl same ↦ rw same (u.0, u.1)
  | inr apart ↦ rw apart (
    rw (lookup-insert key other es groups, apart_sym key other apart) u.0,
    Unique-insert key es groups u.1,
  )
]

pub group_rows-Unique :
    (base : PublicConfig) (rows : List Row) (groups : Groups) {out : Groups}
    → Unique groups
    → group_rows base rows groups ≡ ok out
    → Unique out
unfolding group_rows
group_rows-Unique base [] groups u h = subst Unique (ok-injective h) u
group_rows-Unique base (row ∷ rows) groups u h =
    let (e, v, rest) =
      >>=-eq-ok (validated_edge base row)
        (λ e. group_rows base rows (add_entry (e.source, e.relation) (entry_of_edge e) groups)) h in
    group_rows-Unique base rows _ (Unique-insert (e.source, e.relation) _ groups u) rest

lookup-insert_by :
    (key other : ℕ × ℕ) (others : List Entry) (groups : Groups)
    → lookup other groups ≡ none
    → lookup key (insert_by key_le (other, others) groups) ≡ lookup key ((other, others) ∷ groups)
lookup-insert_by key other others [] absent = refl
lookup-insert_by key other others ((k, r) ∷ groups) absent =
    ground (arith, lookup-insert_by key other others groups)

Unique-insert_by :
    (key : ℕ × ℕ) (es : List Entry) (groups : Groups)
    → lookup key groups ≡ none
    → Unique groups
    → Unique (insert_by key_le (key, es) groups)
Unique-insert_by key es [] absent u = (refl, tt)
Unique-insert_by key es ((other, others) ∷ groups) absent u =
    elim (Bool-cases (key_le (key, es) (other, others))) [
      | inl before ↦ rw before (absent, u)
      | inr after ↦
          let apart : same_pair key other ≡ false = ground arith in
          let missing : lookup key groups ≡ none = rw apart at absent in
          rw after (
            rw (lookup-insert_by other key es groups missing, apart_sym key other apart) u.0,
            Unique-insert_by key es groups missing u.1,
          )
    ]

-- Sorting by key keeps every group, and keeps the keys apart.
pub sort_by-groups :
    (groups : Groups)
    → Unique groups
    → Unique (sort_by key_le groups)
      × ((key : ℕ × ℕ) → lookup key (sort_by key_le groups) ≡ lookup key groups)
unfolding sort_by
sort_by-groups [] u = (tt, λ key. refl)
sort_by-groups ((k, r) ∷ groups) u =
    let (unique, same) = sort_by-groups groups u.1 in
    let absent : lookup k (sort_by key_le groups) ≡ none = same k ∙ u.0 in
    (
      Unique-insert_by k r (sort_by key_le groups) absent unique,
      λ key.
          lookup-insert_by key k r (sort_by key_le groups) absent
          ∙ ap (λ (o : Option (List Entry)). if same_pair key k then some r else o) (same key),
    )

pub entries_of-HasTarget :
    (base : PublicConfig) (key : ℕ × ℕ) (es : List Edge)
    → All (HasSlots base) es
    → All HasTarget (entries_of key es)
entries_of-HasTarget base key [] h = tt
entries_of-HasTarget base key (e ∷ es) h =
    elim (Bool-cases (same_pair key (e.source, e.relation))) [
      | inl same ↦ rw same (h.0.target.0, entries_of-HasTarget base key es h.1)
      | inr apart ↦ rw apart (entries_of-HasTarget base key es h.1)
    ]
