-- ===== src/OramEpoch/Authorized.antt =====
-- oram_epoch.py, `validate`: what an authorization states.
use text.Mathlib.TextPositions.{eq_refl}
use fed_kg_rag_secure_impl.Prelude.{
  ℕ, ◌<◌, Option, none, some, ltb, ◌≡◌, ◌↔◌, ap, refl, sym, ◌∙◌, arith, String, true, false, eq_iff,
  ==_refl,
}
use fed_kg_rag_secure_impl.Python.{ok, value_error, ◌>>=◌, ◌>>◌, >>=-eq-ok, ok-injective, raise_if}
use fed_kg_rag_secure_impl.Pages.Directory.{RelationPageConfig}
use fed_kg_rag_secure_impl.OramEpoch.{
  KgOramEpochAuthorization, same_authorization, accepted, validate, access_count_per_owner,
  or_raise,
}

same_authorization_refl : (a : KgOramEpochAuthorization) → same_authorization a a ≡ true
unfolding same_authorization
same_authorization_refl a =
    rw
      (
        eq_refl a.epoch_id,
        eq_refl a.config_digest,
        ==_refl a.query_count,
        ==_refl a.accesses_per_owner,
        ==_refl a.global_frontier,
        ==_refl a.bound_violations,
      )
      refl

same_authorization→eq : (a b : KgOramEpochAuthorization) → same_authorization a b ≡ true → a ≡ b
unfolding same_authorization
same_authorization→eq a b h =
    let epochs : a.epoch_id ≡ b.epoch_id = (eq_iff a.epoch_id b.epoch_id).0 (ground arith) in
    let digests : a.config_digest ≡ b.config_digest =
      (eq_iff a.config_digest b.config_digest).0 (ground arith) in
    let queries : a.query_count ≡ b.query_count = ground arith in
    let accesses : a.accesses_per_owner ≡ b.accesses_per_owner = ground arith in
    let frontiers : a.global_frontier ≡ b.global_frontier = ground arith in
    let violations : a.bound_violations ≡ b.bound_violations = ground arith in
    rw (epochs, digests, queries, accesses, frontiers, violations) refl

module _ (digest : RelationPageConfig → String) where
  validate-iff_accepted :
      (authorization : KgOramEpochAuthorization) (config : RelationPageConfig) (epoch_id : String)
      (query_count : ℕ)
      → (validate digest authorization config epoch_id query_count ≡ ok tt)
        ↔ (accepted digest config epoch_id query_count 0 ≡ ok authorization)
  unfolding validate
  validate-iff_accepted authorization config epoch_id query_count = (
    λ h.
        let (expected, run, h1) = >>=-eq-ok (accepted digest config epoch_id query_count 0) _ h in
        run ∙ ap ok (sym (same_authorization→eq authorization expected (ground arith))),
    λ h. rw (h, same_authorization_refl authorization) refl,
  )

-- What an authorization for an epoch states.
pub record IsAuthorized (digest : RelationPageConfig → String) (a : KgOramEpochAuthorization)
    (config : RelationPageConfig) (epoch_id : String) (query_count : ℕ) : Type 0 where
  pub frontier : config.pages.global_frontier ≡ some a.global_frontier
  pub epoch : a.epoch_id ≡ epoch_id
  pub digested : a.config_digest ≡ digest config
  pub queries : a.query_count ≡ query_count
  pub positive : 0 < query_count
  pub accesses : a.accesses_per_owner ≡ access_count_per_owner config query_count
  pub clean : a.bound_violations ≡ 0

module _ (digest : RelationPageConfig → String) (a : KgOramEpochAuthorization)
    (config : RelationPageConfig) (epoch_id : String) (query_count : ℕ) where
  accepted-IsAuthorized :
      accepted digest config epoch_id query_count 0 ≡ ok a
      → IsAuthorized digest a config epoch_id query_count
  unfolding accepted
  accepted-IsAuthorized h =
      let (frontier, given, h1) = >>=-eq-ok (or_raise config.pages.global_frontier) _ h in
      let (u, some_queries, h2) = >>=-eq-ok (raise_if (ltb query_count 1) value_error) _ h1 in
      let e = ok-injective h2 in
      record {
        frontier =
            or_raise-some config.pages.global_frontier given ∙ ap (λ b. some b.global_frontier) e;
        epoch = ap (λ b. b.epoch_id) (sym e);
        digested = ap (λ b. b.config_digest) (sym e);
        queries = ap (λ b. b.query_count) (sym e);
        positive = ground arith;
        accesses = ap (λ b. b.accesses_per_owner) (sym e);
        clean = ap (λ b. b.bound_violations) (sym e);
      }
    where
      or_raise-some : (o : Option ℕ) {n : ℕ} → or_raise o ≡ ok n → o ≡ some n
      or_raise-some none k = cc
      or_raise-some (some n) k = ap some (ok-injective k)

  IsAuthorized-accepted :
      IsAuthorized digest a config epoch_id query_count
      → accepted digest config epoch_id query_count 0 ≡ ok a
  unfolding accepted
  IsAuthorized-accepted w =
      let asked : ltb query_count 1 ≡ false = ground (arith, w.positive) in
      let given : ℕ → KgOramEpochAuthorization = λ frontier. record {
        epoch_id = epoch_id;
        config_digest = digest config;
        query_count = query_count;
        accesses_per_owner = access_count_per_owner config query_count;
        global_frontier = frontier;
        bound_violations = 0;
      } in
      let fields : given a.global_frontier ≡ a =
        rw (w.epoch, w.digested, w.queries, w.accesses, w.clean) refl in
      ap
        (λ o. or_raise o >>= λ frontier.
          raise_if (ltb query_count 1) value_error >> ok (given frontier))
        w.frontier
      ∙ (rw asked (ap ok fields))

  -- For every digest function, `validate` accepts an authorization exactly when the configuration
  -- has a federation-wide frontier and the authorization states it, the epoch, the digest and the
  -- query count are the given ones, the query count is positive, the accesses per owner are those
  -- of the configuration, and no violations are stated.
  pub validate-iff_IsAuthorized :
      (validate digest a config epoch_id query_count ≡ ok tt)
      ↔ IsAuthorized digest a config epoch_id query_count
  validate-iff_IsAuthorized = (
    λ h. accepted-IsAuthorized ((validate-iff_accepted digest a config epoch_id query_count).0 h),
    λ w. (validate-iff_accepted digest a config epoch_id query_count).1 (IsAuthorized-accepted w),
  )
