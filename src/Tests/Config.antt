-- ===== src/Tests/Config.antt =====
-- Runs and instances of doram_t2_3pc/config.py.
use fed_kg_rag_secure_impl.Prelude.{◌≡◌, ◌↔◌, ◌⊎◌, refl, [], ◌∷◌, false, some}
use fed_kg_rag_secure_impl.Python.{ok, err, value_error}
use fed_kg_rag_secure_impl.Config.{
  PublicConfig, validate, scalable_field_prime, field_usable_bits, small_field_prime,
}
use fed_kg_rag_secure_impl.Config.Validate.{IsValid, validate-iff_IsValid}

abbrev pub two_owners : PublicConfig
two_owners = record {
  owners = "a" ∷ "b" ∷ [];
  entities = ("x", 2) ∷ ("y", 1) ∷ ("z", 3) ∷ [];
  relations = ("r", 1) ∷ ("s", 2) ∷ [];
  fanout_per_owner = 3;
  top_k = 2;
  score_bits = 20;
  evidence_bits = 50;
  field_prime = scalable_field_prime;
  relation_fanout_per_owner = some 2;
  deduplicate_terminal_answers = false;
}

validate-two_owners : validate two_owners ≡ ok tt
unfolding validate
validate-two_owners = refl

pub two_owners-IsValid : IsValid two_owners
two_owners-IsValid = (validate-iff_IsValid two_owners).0.0 validate-two_owners

validate_duplicate : validate (record two_owners { owners = "a" ∷ "a" ∷ [] }) ≡ err value_error
unfolding validate
validate_duplicate = refl

validate_gap :
    validate (record two_owners { entities = ("x", 2) ∷ ("y", 3) ∷ [] }) ≡ err value_error
unfolding validate
validate_gap = refl

usable : field_usable_bits (record two_owners { field_prime = small_field_prime }) ≡ 59
unfolding field_usable_bits
usable = refl

validate_unnamed : validate (record two_owners { owners = "a" ∷ "" ∷ [] }) ≡ err value_error
unfolding validate
validate_unnamed = refl

validate-iff_IsValid_example :
    ((validate two_owners ≡ ok tt) ↔ IsValid two_owners)
    × ((validate two_owners ≡ ok tt) ⊎ (validate two_owners ≡ err value_error))
validate-iff_IsValid_example = validate-iff_IsValid two_owners
