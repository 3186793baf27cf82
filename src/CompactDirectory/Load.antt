-- ===== src/CompactDirectory/Load.antt =====
-- compact_directory.py, `measure_load`: the loads and the number of tags in each bucket.
use fed_kg_rag_secure_impl.Prelude.{
  ℕ, zero, suc, ◌+◌, ◌≤◌, ◌≡◌, ap, refl, sym, subst, ◌∙◌, arith, String, Bool, Bool-cases, inl, inr,
  false, some, List, [], ◌∷◌, ◌==◌, ==→eq, get_elem?, if◌then◌else◌,
}
use fed_kg_rag_secure_impl.Python.{
  Result, ok, err, >>=-eq-ok, ok-injective, map_result, insert, nat_key,
}
use fed_kg_rag_secure_impl.Python.Sequence.{max_default, keys_of, sort_by, insert_by}
use fed_kg_rag_secure_impl.CompactDirectory.{bucket_of, filled_of}
use fed_kg_rag_secure_impl.CompactDirectory.Plan.{
  counts_of, count_buckets, owner_load, measure_load,
}
use fed_kg_rag_secure_impl.CompactDirectory.Table.{filled_of-insert}

abbrev is_bucket : ℕ → Result ℕ → Bool
is_bucket bucket (err e) = false
is_bucket bucket (ok other) = bucket == other

-- The tag hashes to the bucket.
abbrev hits : ℕ → ℕ → ℕ → Bool
hits buckets bucket tag = is_bucket bucket (bucket_of tag buckets)

-- How many tags hash to the bucket.
unfoldable pub tally : ℕ → ℕ → List ℕ → ℕ
tally buckets bucket [] = 0
tally buckets bucket (tag ∷ tags) =
    (if hits buckets bucket tag then 1 else 0) + tally buckets bucket tags

pub tally-cons :
    (buckets bucket tag : ℕ) (tags : List ℕ) {own : ℕ}
    → bucket_of tag buckets ≡ ok own
    → tally buckets bucket (tag ∷ tags)
      ≡ (if bucket == own then 1 else 0) + tally buckets bucket tags
unfolding tally
tally-cons buckets bucket tag tags hash =
    ap (λ r. (if is_bucket bucket r then 1 else 0) + tally buckets bucket tags) hash

-- Every tag has a bucket.
unfoldable pub AllHash : ℕ → List ℕ → Type 0
AllHash buckets [] = Unit
AllHash buckets (tag ∷ tags) =
    ((bucket : ℕ) × (bucket_of tag buckets ≡ ok bucket)) × AllHash buckets tags

pub count_buckets-tally :
    (buckets bucket : ℕ) (tags : List ℕ) (counts : List (ℕ × ℕ)) {out : List (ℕ × ℕ)}
    → count_buckets buckets tags counts ≡ ok out
    → (filled_of bucket out ≡ filled_of bucket counts + tally buckets bucket tags)
      × AllHash buckets tags
unfolding count_buckets tally AllHash
count_buckets-tally buckets bucket [] counts h =
    (omega (arith, ap (filled_of bucket) (sym (ok-injective h))), tt)
count_buckets-tally buckets bucket (tag ∷ tags) counts h =
    let (own, hash, rest) = >>=-eq-ok (bucket_of tag buckets) _ h in
    let (more, all) =
      count_buckets-tally buckets bucket tags (insert own (filled_of own counts + 1) counts) rest in
    let step = filled_of-insert own bucket (filled_of own counts + 1) counts in
    let here = tally-cons buckets bucket tag tags hash in
    (
      elim (Bool-cases (bucket == own)) [
        | inl same ↦ omega (
          arith,
          more,
          rw same at here,
          rw same at step,
          ap (λ (b : ℕ). filled_of b counts) (==→eq bucket own same),
        )
        | inr other ↦ omega (arith, more, rw other at here, rw other at step)
      ],
      ((own, hash), all),
    )

filled_of-le :
    (bucket : ℕ) (counts : List (ℕ × ℕ))
    → filled_of bucket counts ≤ max_default 0 (counts_of counts)
filled_of-le bucket [] = omega arith
filled_of-le bucket ((name, n) ∷ []) = ground arith
filled_of-le bucket ((name, n) ∷ e ∷ counts) = ground (arith, filled_of-le bucket (e ∷ counts))

-- The load that `measure_load` takes from one owner.
pub owner_load-tally :
    (buckets : ℕ) (tags : List ℕ) {load : ℕ}
    → owner_load buckets tags ≡ ok load
    → ((bucket : ℕ) → tally buckets bucket tags ≤ load) × AllHash buckets tags
unfolding owner_load
owner_load-tally buckets tags h =
    let (counts, run, e) = >>=-eq-ok (count_buckets buckets tags []) _ h in
    (
      λ bucket. omega (
        arith,
        (count_buckets-tally buckets bucket tags [] run).0,
        filled_of-le bucket counts,
        ok-injective e,
      ),
      (count_buckets-tally buckets 0 tags [] run).1,
    )

max_default-ge : (xs : List ℕ) (k : ℕ) {x : ℕ} → get_elem? xs k ≡ some x → x ≤ max_default 0 xs
max_default-ge [] k h = cc
max_default-ge (y ∷ []) zero h = ground arith
max_default-ge (y ∷ []) (suc k) h = cc
max_default-ge (y ∷ z ∷ xs) zero h = ground arith
max_default-ge (y ∷ z ∷ xs) (suc k) h = omega (arith, max_default-ge (z ∷ xs) k h)

some-injective {ℓ} : {A : Type ℓ} {a b : A} → some a ≡ some b → a ≡ b
some-injective e = cc

map_result-get_elem? {ℓ κ} :
    {A : Type ℓ} {B : Type κ} (f : A → Result B) (xs : List A) (k : ℕ) {ys : List B} {x : A}
    → map_result f xs ≡ ok ys
    → get_elem? xs k ≡ some x
    → (y : B) × (get_elem? ys k ≡ some y) × (f x ≡ ok y)
map_result-get_elem? f [] k h at = cc
map_result-get_elem? f (a ∷ xs) zero h at =
    let (b, run, h1) = >>=-eq-ok (f a) _ h in
    let (bs, rest, h2) = >>=-eq-ok (map_result f xs) _ h1 in
    (
      b,
      ap (λ l. get_elem? l 0) (sym (ok-injective h2)),
      subst (λ z. f z ≡ ok b) (some-injective at) run,
    )
map_result-get_elem? f (a ∷ xs) (suc k) h at =
    let (b, run, h1) = >>=-eq-ok (f a) _ h in
    let (bs, rest, h2) = >>=-eq-ok (map_result f xs) _ h1 in
    let (y, there, result) = map_result-get_elem? f xs k rest at in
    (y, ap (λ l. get_elem? l (suc k)) (sym (ok-injective h2)) ∙ there, result)

pub measure_load-tally :
    (owner_tags : List (String × List ℕ)) (buckets k : ℕ) {load : ℕ} {per : List ℕ} {name : String}
    {tags : List ℕ}
    → measure_load owner_tags buckets ≡ ok (load, per)
    → get_elem? owner_tags k ≡ some (name, tags)
    → ((bucket : ℕ) → tally buckets bucket tags ≤ load) × AllHash buckets tags
unfolding measure_load
measure_load-tally owner_tags buckets k {load} {per} {name} {tags} h at =
    let (loads, run, e) =
      >>=-eq-ok (map_result (λ (o : String × List ℕ). owner_load buckets o.1) owner_tags) _ h in
    let (own, there, measured) =
      map_result-get_elem? (λ (o : String × List ℕ). owner_load buckets o.1) owner_tags k run at in
    let (bound, all) = owner_load-tally buckets tags measured in
    let top = max_default-ge (0 ∷ loads) (suc k) there in
    (λ bucket. omega (arith, bound bucket, top, ap (λ p. p.0) (ok-injective e)), all)

tally-insert_by :
    (buckets bucket : ℕ) (le : ℕ × ℕ → ℕ × ℕ → Bool) (a : ℕ × ℕ) (items : List (ℕ × ℕ))
    → tally buckets bucket (keys_of (insert_by le a items))
      ≡ tally buckets bucket (keys_of (a ∷ items))
unfolding tally
tally-insert_by buckets bucket le a [] = refl
tally-insert_by buckets bucket le a (b ∷ items) = elim (Bool-cases (le a b)) [
  | inl before ↦ rw before refl
  | inr behind ↦ rw behind (omega (arith, tally-insert_by buckets bucket le a items))
]

pub tally-sort_by :
    (buckets bucket : ℕ) (le : ℕ × ℕ → ℕ × ℕ → Bool) (items : List (ℕ × ℕ))
    → tally buckets bucket (keys_of (sort_by le items)) ≡ tally buckets bucket (keys_of items)
unfolding tally sort_by
tally-sort_by buckets bucket le [] = refl
tally-sort_by buckets bucket le (a ∷ items) = omega (
  arith,
  tally-insert_by buckets bucket le a (sort_by le items),
  tally-sort_by buckets bucket le items,
)
