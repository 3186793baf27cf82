-- ===== src/Tests/OramEpoch.antt =====
-- Runs and instances of the epochs: one epoch on one server, tried three times.
use fed_kg_rag_secure_impl.Prelude.{
  ◌≡◌, ◌≤◌, refl, List, [], ◌∷◌, arith, String, some, true, false, inl, inr, ◌↔◌,
}
use fed_kg_rag_secure_impl.Python.{ok, err, value_error, os_error}
use fed_kg_rag_secure_impl.Pages.{frontier_slots}
use fed_kg_rag_secure_impl.Pages.Directory.{RelationPageConfig}
use fed_kg_rag_secure_impl.OramEpoch.{
  KgOramEpochAuthorization, Marker, accepted, validate, access_count_per_owner, consume_epoch_once,
  exists,
}
use fed_kg_rag_secure_impl.OramEpoch.Authorized.{IsAuthorized, validate-iff_IsAuthorized}
use fed_kg_rag_secure_impl.OramEpoch.Once.{
  Attempt, successes, successes-le_one, consume_epoch_once_error,
}
use fed_kg_rag_secure_impl.OramEpoch.Progress.{Tries, successes-eq_one}
use fed_kg_rag_secure_impl.Tests.Pages.{paged}

abbrev bounded : RelationPageConfig
bounded = record paged { pages = record paged.pages { global_frontier = some 2 } }

abbrev digest : RelationPageConfig → String
digest config = "digest"

abbrev authorization : KgOramEpochAuthorization
authorization = record {
  epoch_id = "e1";
  config_digest = "digest";
  query_count = 4;
  accesses_per_owner = 12;
  global_frontier = 2;
  bound_violations = 0;
}

abbrev marker : Marker
marker = record { server = 1; epoch_id = "e1" }

-- The first writing fails, the second call succeeds, the third is a replay.
abbrev attempts : List Attempt
attempts =
    record { server = 1; authorization = authorization; writes = false }
    ∷ record { server = 1; authorization = authorization; writes = true }
    ∷ record { server = 1; authorization = authorization; writes = true }
    ∷ []

accepted_run : accepted digest bounded "e1" 4 0 ≡ ok authorization
unfolding accepted access_count_per_owner frontier_slots
accepted_run = refl

unbounded_run : accepted digest paged "e1" 4 0 ≡ err value_error
unfolding accepted
unbounded_run = refl

failed_run : (consume_epoch_once [] 1 authorization false).0 ≡ err os_error
unfolding consume_epoch_once exists
failed_run = refl

new_run : exists marker [] ≡ false
unfolding exists
new_run = refl

tried : Tries marker attempts
unfolding Tries
tried = inr (inl (refl, refl))

validate-iff_IsAuthorized_example :
    (validate digest authorization bounded "e1" 4 ≡ ok tt)
    ↔ IsAuthorized digest authorization bounded "e1" 4
validate-iff_IsAuthorized_example = validate-iff_IsAuthorized digest authorization bounded "e1" 4

successes-le_one_example : successes marker attempts [] ≤ 1
successes-le_one_example = successes-le_one marker attempts []

successes-eq_one_example : successes marker attempts [] ≡ 1
successes-eq_one_example = successes-eq_one marker attempts [] (omega arith) new_run tried

consume_epoch_once_error_example : (consume_epoch_once [] 1 authorization false).1 ≡ []
consume_epoch_once_error_example = consume_epoch_once_error [] 1 authorization false failed_run
