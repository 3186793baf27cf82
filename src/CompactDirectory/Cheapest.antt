-- ===== src/CompactDirectory/Cheapest.antt =====
-- compact_directory.py, `plan_capacity`: the cost of the plan and of the candidates.
use fed_kg_rag_secure_impl.Prelude.{
  ℕ, zero, suc, ◌≤◌, ◌≡◌, subst, ap, ◌∙◌, arith, String, Bool-cases, inl, inr, false, Option, none,
  some, List, [], ◌∷◌, ◌==◌, get_elem?, ltb,
}
use fed_kg_rag_secure_impl.Python.{Result, ok, err, value_error, >>=-eq-ok, ok-injective}
use fed_kg_rag_secure_impl.CompactDirectory.Plan.{
  CompactDirectoryPlan, measure_load, plan_of, better, best_plan, plan_capacity, lookup_products,
}

-- There is a plan of at most the cost.
AtMost : ℕ → ℕ → Option CompactDirectoryPlan → Type 0
AtMost frontier cost none = ⊥
AtMost frontier cost (some p) = lookup_products p frontier ≤ cost

module _ (frontier : ℕ) where
  better-AtMost_new :
      (p : CompactDirectoryPlan) (best : Option CompactDirectoryPlan)
      → AtMost frontier (lookup_products p frontier) (better frontier p best)
  unfolding AtMost
  better-AtMost_new p none = omega arith
  better-AtMost_new p (some b) =
      elim (Bool-cases (ltb (lookup_products p frontier) (lookup_products b frontier))) [
        | inl cheaper ↦ rw cheaper (omega arith)
        | inr dearer ↦ rw dearer (ground arith)
      ]

  better-AtMost :
      (p : CompactDirectoryPlan) (best : Option CompactDirectoryPlan) (cost : ℕ)
      → AtMost frontier cost best
      → AtMost frontier cost (better frontier p best)
  unfolding AtMost
  better-AtMost p none cost h = elim h [ ]
  better-AtMost p (some b) cost h =
      elim (Bool-cases (ltb (lookup_products p frontier) (lookup_products b frontier))) [
        | inl cheaper ↦ rw cheaper (ground arith)
        | inr dearer ↦ rw dearer h
      ]

  module _ (owner_tags : List (String × List ℕ)) where
    best_plan-AtMost :
        (candidates : List ℕ) (best : Option CompactDirectoryPlan) (cost : ℕ)
        {out : Option CompactDirectoryPlan}
        → best_plan owner_tags frontier candidates best ≡ ok out
        → AtMost frontier cost best
        → AtMost frontier cost out
    unfolding best_plan
    best_plan-AtMost [] best cost h low = subst (AtMost frontier cost) (ok-injective h) low
    best_plan-AtMost (buckets ∷ candidates) best cost h low =
        let (measured, run, rest) = >>=-eq-ok (measure_load owner_tags buckets) _ h in
        best_plan-AtMost candidates _ cost rest (elim (Bool-cases (measured.0 == 0)) [
          | inl empty ↦ rw empty low
          | inr loaded ↦
              rw loaded (better-AtMost (plan_of owner_tags buckets measured.0) best cost low)
        ])

    best_plan-AtMost_candidate :
        (candidates : List ℕ) (best : Option CompactDirectoryPlan) (k : ℕ)
        {out : Option CompactDirectoryPlan} {buckets load : ℕ} {per : List ℕ}
        → best_plan owner_tags frontier candidates best ≡ ok out
        → get_elem? candidates k ≡ some buckets
        → measure_load owner_tags buckets ≡ ok (suc load, per)
        → AtMost frontier (lookup_products (plan_of owner_tags buckets (suc load)) frontier) out
    unfolding best_plan
    best_plan-AtMost_candidate [] best k h at measures = cc
    best_plan-AtMost_candidate (count ∷ candidates) best zero {out = out} {buckets = buckets}
          {load = load} {per = per} h at measures =
        let same : count ≡ buckets = ground arith in
        let run : measure_load owner_tags count ≡ ok (suc load, per) =
          ap (measure_load owner_tags) same ∙ measures in
        let loaded : (suc load == 0) ≡ false = ground arith in
        let rest = rw run at h in
        subst
          (λ (b : ℕ).
            AtMost frontier (lookup_products (plan_of owner_tags b (suc load)) frontier) out)
          same
          (best_plan-AtMost candidates _
            (lookup_products (plan_of owner_tags count (suc load)) frontier) rest
            (rw loaded (better-AtMost_new (plan_of owner_tags count (suc load)) best)))
    best_plan-AtMost_candidate (count ∷ candidates) best (suc k) h at measures =
        let (measured, run, rest) = >>=-eq-ok (measure_load owner_tags count) _ h in
        best_plan-AtMost_candidate candidates _ k rest at measures

    -- When `plan_capacity` returns a plan for given candidates, its modelled lookup cost is at
    -- most that of the plan of any candidate bucket count whose measured load is not zero.
    pub plan_capacity_cheapest :
        (candidates : List ℕ) (k : ℕ) {p : CompactDirectoryPlan} {buckets load : ℕ} {per : List ℕ}
        → plan_capacity owner_tags (some candidates) frontier ≡ ok p
        → get_elem? candidates k ≡ some buckets
        → measure_load owner_tags buckets ≡ ok (suc load, per)
        → lookup_products p frontier
          ≤ lookup_products (plan_of owner_tags buckets (suc load)) frontier
    unfolding plan_capacity AtMost
    plan_capacity_cheapest candidates k {p} {buckets} {load} h at measures =
        let (best, run, chosen) = >>=-eq-ok (best_plan owner_tags frontier candidates none) _ h in
        found best chosen (best_plan-AtMost_candidate candidates none k run at measures)
      where
        found :
            (o : Option CompactDirectoryPlan)
            → elim o as (λ x. Result CompactDirectoryPlan) [
              | none ↦ err value_error
              | some plan ↦ ok plan
            ]
              ≡ ok p
            → AtMost frontier (lookup_products (plan_of owner_tags buckets (suc load)) frontier) o
            → lookup_products p frontier
              ≤ lookup_products (plan_of owner_tags buckets (suc load)) frontier
        found none e low = cc
        found (some plan) e low =
            subst
              (λ q.
                lookup_products q frontier
                ≤ lookup_products (plan_of owner_tags buckets (suc load)) frontier)
              (ok-injective e) low
