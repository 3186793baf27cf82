-- ===== src/Config.antt =====
-- doram_t2_3pc/config.py: the public configuration, its checks and its derived sizes. Fields that
-- Python holds as `int` are natural numbers: `validate` refuses a negative one like a zero.
pub mod Sorted
pub mod Validate
pub mod Sizes
use fed_kg_rag_secure_impl.Prelude.{
  ℕ, zero, suc, ◌+◌, ◌-◌, ◌*◌, String, Bool, true, false, Option, none, some, List, [], ◌∷◌, map,
  length, not, ltb, leb, ◌==◌, ◌&&◌, ◌||◌, str_eq, if◌then◌else◌,
}
use fed_kg_rag_secure_impl.Prelude.Bits.{bit_length}
use fed_kg_rag_secure_impl.Python.{
  Result, ok, err, value_error, ◌>>=◌, ◌>>◌, raise_if, contains, string_key,
}

abbrev pub small_field_prime : ℕ
small_field_prime = 2_305_843_009_213_693_951

abbrev pub scalable_field_prime : ℕ
scalable_field_prime = 170_141_183_460_469_231_731_687_303_715_884_105_727

abbrev pub he_scalable_field_prime : ℕ
he_scalable_field_prime = 170_141_183_460_469_231_731_687_303_715_885_907_969

abbrev pub is_scalable : ℕ → Bool
is_scalable p = p == scalable_field_prime || p == he_scalable_field_prime

abbrev pub is_supported : ℕ → Bool
is_supported p = p == small_field_prime || is_scalable p

pub record PublicConfig : Type 0 where
  pub owners : List String
  pub entities : List (String × ℕ)
  pub relations : List (String × ℕ)
  pub fanout_per_owner : ℕ
  pub top_k : ℕ
  pub score_bits : ℕ
  pub evidence_bits : ℕ
  pub field_prime : ℕ
  pub relation_fanout_per_owner : Option ℕ
  pub deduplicate_terminal_answers : Bool

-- `d.values()`
abbrev pub values : List (String × ℕ) → List ℕ
values d = map (λ (e : String × ℕ). e.1) d

unfoldable pub entity_count : PublicConfig → ℕ
entity_count c = length c.entities + 1

unfoldable pub block_edges : PublicConfig → ℕ
block_edges c = length c.owners * c.fanout_per_owner

unfoldable pub candidate_count : PublicConfig → ℕ
unfolding block_edges
candidate_count c = block_edges c * block_edges c

-- `self.relation_fanout_per_owner or self.fanout_per_owner`: a zero counts as absent.
abbrev pub or_default : Option ℕ → ℕ → ℕ
or_default none d = d
or_default (some n) d = if n == 0 then d else n

unfoldable pub relation_frontier_per_owner : PublicConfig → ℕ
relation_frontier_per_owner c = or_default c.relation_fanout_per_owner c.fanout_per_owner

unfoldable pub frontier_edges : PublicConfig → ℕ
unfolding relation_frontier_per_owner
frontier_edges c = length c.owners * relation_frontier_per_owner c

unfoldable pub compacted_candidate_count : PublicConfig → ℕ
unfolding frontier_edges block_edges
compacted_candidate_count c = frontier_edges c * block_edges c

unfoldable pub uses_frontier_compaction : PublicConfig → Bool
unfolding frontier_edges block_edges
uses_frontier_compaction c = ltb (frontier_edges c) (block_edges c)

-- The number of fields of an edge record is 5.
unfoldable pub owner_value_count : PublicConfig → ℕ
unfolding entity_count
owner_value_count c = entity_count c * c.fanout_per_owner * 5

unfoldable pub field_usable_bits : PublicConfig → ℕ
unfolding bit_length
field_usable_bits c = if is_scalable c.field_prime then 124 else bit_length c.field_prime - 2

abbrev pub insert_sorted : ℕ → List ℕ → List ℕ
insert_sorted a [] = a ∷ []
insert_sorted a (b ∷ bs) = if leb a b then a ∷ b ∷ bs else b ∷ insert_sorted a bs

-- `sorted(xs)`
unfoldable pub sorted : List ℕ → List ℕ
sorted [] = []
sorted (a ∷ xs) = insert_sorted a (sorted xs)

-- `list(range(lo, lo + n))`
abbrev pub range_from : ℕ → ℕ → List ℕ
range_from lo zero = []
range_from lo (suc n) = lo ∷ range_from (lo + 1) n

abbrev pub same_list : List ℕ → List ℕ → Bool
same_list [] [] = true
same_list [] (y ∷ ys) = false
same_list (x ∷ xs) [] = false
same_list (x ∷ xs) (y ∷ ys) = x == y && same_list xs ys

-- `set(names)`, as a list without repetitions.
unfoldable pub name_set : List String → List String
name_set [] = []
name_set (a ∷ rest) = if contains a rest then name_set rest else a ∷ name_set rest

abbrev pub any_empty : List String → Bool
any_empty [] = false
any_empty (a ∷ rest) = str_eq a "" || any_empty rest

-- `xs == list(range(1, len(xs) + 1))`
unfoldable pub is_contiguous : List ℕ → Bool
unfolding sorted
is_contiguous ids = same_list (sorted ids) (range_from 1 (length ids))

unfoldable pub relation_fanout_ok : PublicConfig → Bool
relation_fanout_ok c = elim c.relation_fanout_per_owner [
  | none ↦ true
  | some n ↦ leb 1 n && leb n c.fanout_per_owner
]

unfoldable pub active_candidate_count : PublicConfig → ℕ
unfolding uses_frontier_compaction compacted_candidate_count candidate_count
active_candidate_count c =
    if uses_frontier_compaction c then compacted_candidate_count c else candidate_count c

-- Every check of `PublicConfig.validate`, in its order; all of them raise `ValueError`.
unfoldable pub validate : PublicConfig → Result (Unit {0})
unfolding name_set is_contiguous relation_fanout_ok active_candidate_count
validate c = do
  raise_if (ltb (length c.owners) 1 || not (length (name_set c.owners) == length c.owners))
      value_error
  raise_if (any_empty c.owners) value_error
  raise_if (not (is_contiguous (values c.entities))) value_error
  raise_if (length c.relations == 0 || not (is_contiguous (values c.relations))) value_error
  raise_if (ltb c.fanout_per_owner 1) value_error
  raise_if (not (relation_fanout_ok c)) value_error
  raise_if (ltb c.top_k 1 || ltb (active_candidate_count c) c.top_k) value_error
  raise_if (not (leb 1 c.score_bits && leb c.score_bits 30)) value_error
  raise_if (not (leb 1 c.evidence_bits && leb c.evidence_bits 59)) value_error
  raise_if (not (is_supported c.field_prime)) value_error
  ok tt
