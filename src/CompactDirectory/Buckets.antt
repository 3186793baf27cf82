-- ===== src/CompactDirectory/Buckets.antt =====
-- compact_directory.py, `bucket_of`: the bounds of a bucket.
use native.Mathlib.Nat.{one-le-pow, mod-lt, mul_comm, div-lt_iff_lt-mul}
use fed_kg_rag_secure_impl.Prelude.{
  ℕ, ◌+◌, ◌-◌, ◌*◌, ◌^◌, ◌<◌, ◌≤◌, ◌≡◌, sym, subst, arith, inl, inr, ◌⊎◌, bit_and,
}
use fed_kg_rag_secure_impl.Prelude.Arith.{pow-add}
use fed_kg_rag_secure_impl.Prelude.Bits.{◌<<<◌, ◌>>>◌, bit_length, bit_and-mask, pow-le_bit_length}
use fed_kg_rag_secure_impl.Python.{ok}
use fed_kg_rag_secure_impl.CompactDirectory.{hash_bucket, bucket_of, multiplier, hash_word_bits}

top_digits : (a b n : ℕ) → n < 2 ^ (a + b) → n >>> a < 2 ^ b
top_digits a b n h =
    (div-lt_iff_lt-mul (one-le-pow a 2 (omega arith))).1
      (omega (arith, pow-add a b, mul_comm (2 ^ a) (2 ^ b)))

word_of : ℕ → ℕ
word_of tag = bit_and (tag * multiplier) ((1 <<< hash_word_bits) - 1)

word_of-lt : (tag : ℕ) → word_of tag < 2 ^ hash_word_bits
unfolding word_of
word_of-lt tag =
    rw (bit_and-mask hash_word_bits (tag * multiplier))
      (mod-lt (tag * multiplier) (one-le-pow hash_word_bits 2 (omega arith)))

hash_bucket-inv :
    (tag width : ℕ) {bucket : ℕ}
    → hash_bucket tag width ≡ ok bucket
    → (width ≤ hash_word_bits) × (bucket ≡ word_of tag >>> (hash_word_bits - width))
unfolding hash_bucket word_of
hash_bucket-inv tag width h = ground arith

hash_bucket-lt :
    (tag width : ℕ) {bucket : ℕ} → hash_bucket tag width ≡ ok bucket → bucket < 2 ^ width
hash_bucket-lt tag width h =
    let (small, e) = hash_bucket-inv tag width h in
    let bits : (hash_word_bits - width) + width ≡ hash_word_bits = omega arith in
    subst (λ (t : ℕ). t < 2 ^ width) (sym e)
      (top_digits (hash_word_bits - width) width (word_of tag)
        (subst (λ (t : ℕ). word_of tag < 2 ^ t) (sym bits) (word_of-lt tag)))

bucket_of-inv :
    (tag buckets : ℕ) {bucket : ℕ}
    → bucket_of tag buckets ≡ ok bucket
    → (0 < buckets)
      × (¬ (buckets ≡ 1) → hash_bucket tag (bit_length buckets - 1) ≡ ok bucket)
      × (buckets ≡ 1 → bucket ≡ 0)
unfolding bucket_of
bucket_of-inv tag buckets h = ground arith

-- When `bucket_of` returns a bucket for a tag, the bucket is below the number of buckets.
pub bucket_of-lt :
    (tag buckets : ℕ) {bucket : ℕ} → bucket_of tag buckets ≡ ok bucket → bucket < buckets
bucket_of-lt tag buckets h =
    let (pos, hashed, single) = bucket_of-inv tag buckets h in
    elim (decide buckets 1) [
      | inl one ↦ omega (arith, single one)
      | inr many ↦ omega (
        arith,
        hash_bucket-lt tag (bit_length buckets - 1) (hashed many),
        pow-le_bit_length buckets pos,
      )
    ]
  where
    decide : (a b : ℕ) → (a ≡ b) ⊎ ¬ (a ≡ b)
    decide a b = ground arith
