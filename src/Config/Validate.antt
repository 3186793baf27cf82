-- ===== src/Config/Validate.antt =====
-- doram_t2_3pc/config.py: what the checks of `PublicConfig.validate` come to.
use fed_kg_rag_secure_impl.Prelude.{
  ℕ, suc, ◌≤◌, ◌<◌, String, Option, some, none, ◌≡◌, ◌≢◌, ◌↔◌, ◌⊎◌, refl, sym, subst, ap, ◌∙◌, true,
  false, List, [], ◌∷◌, length, arith, All, Distinct, leb, inl, inr, Bool-cases, length-map, str_eq,
  ◌&&◌,
}
use fed_kg_rag_secure_impl.Python.{ok, contains, string_key, string-same→eq, err, value_error}
use fed_kg_rag_secure_impl.Config.{
  PublicConfig, values, relation_frontier_per_owner, active_candidate_count, name_set, any_empty,
  is_contiguous, is_supported, relation_fanout_ok, validate,
}
use fed_kg_rag_secure_impl.Config.Sorted.{Within, is_contiguous-iff_Within}

length-name_set : (names : List String) → length (name_set names) ≤ length names
unfolding name_set
length-name_set [] = omega arith
length-name_set (a ∷ rest) = ground (arith, length-name_set rest)

-- A name that is not among others differs from each of them.
contains-apart :
    (a : String) (rest : List String) → (contains a rest ≡ false) ↔ All (λ (b : String). b ≢ a) rest
contains-apart a [] = (λ h. tt, λ h. refl)
contains-apart a (b ∷ rest) = elim (Bool-cases (str_eq a b)) [
  | inl same ↦
      (λ h. let gone = rw same at h in cc, λ h. absurd (h.0 (sym (string-same→eq a b same))))
  | inr other ↦ (
    λ h. (
      λ e. let gone = sym (string_key.same_refl a) ∙ ap (str_eq a) (sym e) ∙ other in cc,
      (contains-apart a rest).0 (rw other at h),
    ),
    λ h. rw other ((contains-apart a rest).1 h.1),
  )
]

-- The set of some names has as many names exactly when none of them occurs twice.
name_set-iff_Distinct :
    (names : List String) → (length (name_set names) ≡ length names) ↔ Distinct names
unfolding name_set
name_set-iff_Distinct [] = (λ h. tt, λ h. refl)
name_set-iff_Distinct (a ∷ rest) = elim (Bool-cases (contains a rest)) [
  | inl again ↦ (
    λ h. absurd (let less = rw again at h in omega (arith, less, length-name_set rest)),
    λ h. let gone = sym ((contains-apart a rest).1 h.0) ∙ again in cc,
  )
  | inr new ↦ (
    λ h.
        let same = rw new at h in
        ((contains-apart a rest).0 new, (name_set-iff_Distinct rest).0 (omega (arith, same))),
    λ h. rw new (ap suc ((name_set-iff_Distinct rest).1 h.1)),
  )
]

any_empty_iff : (names : List String) → (any_empty names ≡ false) ↔ All (λ n. n ≢ "") names
any_empty_iff [] = (λ h. tt, λ h. refl)
any_empty_iff (a ∷ rest) = elim (Bool-cases (str_eq a "")) [
  | inl empty ↦ (λ h. let gone = rw empty at h in cc, λ h. absurd (h.0 (string-same→eq a "" empty)))
  | inr named ↦ (
    λ h. (
      λ e. let gone = sym named ∙ ap (λ n. str_eq n "") e in cc,
      (any_empty_iff rest).0 (rw named at h),
    ),
    λ h. rw named ((any_empty_iff rest).1 h.1),
  )
]

-- A bound per relation, if there is one, is between 1 and the fanout.
abbrev pub IsWithinFanout : ℕ → Option ℕ → Type 0
IsWithinFanout fanout none = Unit
IsWithinFanout fanout (some n) = (1 ≤ n) × (n ≤ fanout)

-- A usable configuration: owners with different names, none empty; entities and relations numbered
-- from 1 to their count, no number used twice; and each size in its range.
pub record IsValid (c : PublicConfig) : Type 0 where
  pub some_owner : 0 < length c.owners
  pub distinct_owners : Distinct c.owners
  pub named_owners : All (λ (name : String). name ≢ "") c.owners
  pub slots : Distinct (values c.entities) × Within (length c.entities) (values c.entities)
  pub some_relation : 0 < length c.relations
  pub ids : Distinct (values c.relations) × Within (length c.relations) (values c.relations)
  pub some_fanout : 0 < c.fanout_per_owner
  pub relation_fanout : IsWithinFanout c.fanout_per_owner c.relation_fanout_per_owner
  pub some_top_k : 0 < c.top_k
  pub top_k_le : c.top_k ≤ active_candidate_count c
  pub score_range : (1 ≤ c.score_bits) × (c.score_bits ≤ 30)
  pub evidence_range : (1 ≤ c.evidence_bits) × (c.evidence_bits ≤ 59)
  pub supported : is_supported c.field_prime ≡ true

-- The checks, each with the result that lets it pass.
record Passed (c : PublicConfig) : Type 0 where
  some_owner : 0 < length c.owners
  distinct : length (name_set c.owners) ≡ length c.owners
  named : any_empty c.owners ≡ false
  slots : is_contiguous (values c.entities) ≡ true
  some_relation : 0 < length c.relations
  ids : is_contiguous (values c.relations) ≡ true
  some_fanout : 0 < c.fanout_per_owner
  relation_fanout : relation_fanout_ok c ≡ true
  some_top_k : 0 < c.top_k
  top_k_le : c.top_k ≤ active_candidate_count c
  score_range : (1 ≤ c.score_bits) × (c.score_bits ≤ 30)
  evidence_range : (1 ≤ c.evidence_bits) × (c.evidence_bits ≤ 59)
  supported : is_supported c.field_prime ≡ true

validate-Passed : (c : PublicConfig) → validate c ≡ ok tt → Passed c
unfolding validate
validate-Passed c h = ground arith

Passed-validate : (c : PublicConfig) → Passed c → validate c ≡ ok tt
unfolding validate
Passed-validate c p = ground arith

relation_fanout_ok_iff :
    (c : PublicConfig)
    → (relation_fanout_ok c ≡ true) ↔ IsWithinFanout c.fanout_per_owner c.relation_fanout_per_owner
unfolding relation_fanout_ok
relation_fanout_ok_iff c = bounded c.relation_fanout_per_owner
  where
    bounded :
        (bound : Option ℕ)
        → (elim bound [ none ↦ true | some n ↦ leb 1 n && leb n c.fanout_per_owner ] ≡ true)
          ↔ IsWithinFanout c.fanout_per_owner bound
    bounded none = (λ h. tt, λ h. refl)
    bounded (some n) = (λ h. ground arith, λ h. ground arith)

-- The numbers of a dictionary are contiguous exactly when they are distinct and in range.
numbered :
    (d : List (String × ℕ))
    → (is_contiguous (values d) ≡ true) ↔ (Distinct (values d) × Within (length d) (values d))
numbered d =
    subst
      (λ (n : ℕ). (is_contiguous (values d) ≡ true) ↔ (Distinct (values d) × Within n (values d)))
      (length-map d _) (is_contiguous-iff_Within (values d))

iff_IsValid : (c : PublicConfig) → (validate c ≡ ok tt) ↔ IsValid c
iff_IsValid c = (
  λ h.
      let p = validate-Passed c h in
      record {
        some_owner = p.some_owner;
        distinct_owners = (name_set-iff_Distinct c.owners).0 p.distinct;
        named_owners = (any_empty_iff c.owners).0 p.named;
        slots = (numbered c.entities).0 p.slots;
        some_relation = p.some_relation;
        ids = (numbered c.relations).0 p.ids;
        some_fanout = p.some_fanout;
        relation_fanout = (relation_fanout_ok_iff c).0 p.relation_fanout;
        some_top_k = p.some_top_k;
        top_k_le = p.top_k_le;
        score_range = p.score_range;
        evidence_range = p.evidence_range;
        supported = p.supported;
      },
  λ v. Passed-validate c (record {
    some_owner = v.some_owner;
    distinct = (name_set-iff_Distinct c.owners).1 v.distinct_owners;
    named = (any_empty_iff c.owners).1 v.named_owners;
    slots = (numbered c.entities).1 v.slots;
    some_relation = v.some_relation;
    ids = (numbered c.relations).1 v.ids;
    some_fanout = v.some_fanout;
    relation_fanout = (relation_fanout_ok_iff c).1 v.relation_fanout;
    some_top_k = v.some_top_k;
    top_k_le = v.top_k_le;
    score_range = v.score_range;
    evidence_range = v.evidence_range;
    supported = v.supported;
  }),
)

-- Whatever check fails, the exception is the same.
validate_total : (c : PublicConfig) → (validate c ≡ ok tt) ⊎ (validate c ≡ err value_error)
unfolding validate
validate_total c = ground arith

-- `validate` accepts a configuration exactly when it has an owner, owner names that are distinct
-- and not empty, entity slots that are distinct and between 1 and their number, at least one
-- relation, relation identifiers that are distinct and between 1 and their number, a positive
-- fanout, a bound per relation that is absent or between 1 and the fanout, a top k between 1 and
-- the number of active candidates, score bits from 1 to 30, evidence bits from 1 to 59 and a
-- supported prime; and it raises `ValueError` whenever it does not accept.
pub validate-iff_IsValid :
    (c : PublicConfig)
    → ((validate c ≡ ok tt) ↔ IsValid c) × ((validate c ≡ ok tt) ⊎ (validate c ≡ err value_error))
validate-iff_IsValid c = (iff_IsValid c, validate_total c)

-- The bound per relation of a valid configuration, where a zero would count as absent.
pub relation_frontier_per_owner-bounds :
    (c : PublicConfig)
    → IsValid c
    → (0 < relation_frontier_per_owner c) × (relation_frontier_per_owner c ≤ c.fanout_per_owner)
unfolding relation_frontier_per_owner relation_fanout_ok
relation_frontier_per_owner-bounds c v =
    let fanout = (relation_fanout_ok_iff c).1 v.relation_fanout in
    let some_fanout = v.some_fanout in ground arith
