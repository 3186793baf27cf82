-- ===== src/Python/Errors.antt =====
-- Exceptions as values: the class of the exception that a function raises.
use fed_kg_rag_secure_impl.Prelude.{
  length, ap, sym, ◌∙◌, suc, arith, ◌≡◌, refl, Bool, true, false, List, [], ◌∷◌, ◌++◌,
}

pub data Error : Type 0 where
  value_error type_error assertion_error key_error index_error stop_iteration zero_division_error :
      Error
  parameter_error key_share_format_error combine_error domain_error os_error : Error

pub data Result {ℓ} (A : Type ℓ) : Type ℓ where
  err : Error → Result A
  ok : A → Result A

-- `if test: raise error`
abbrev pub raise_if : Bool → Error → Result (Unit {0})
raise_if true e = err e
raise_if false e = ok tt

-- What follows a statement that may raise; the first exception ends the run.
module _ {κ ℓ} {X : Type κ} {Y : Type ℓ} where
  infixl 5 ◌>>=◌
  abbrev pub ◌>>=◌ : Result X → (X → Result Y) → Result Y
  err raised >>= rest = err raised
  ok x >>= rest = rest x

module _ {ℓ} {Y : Type ℓ} where
  infixl 5 ◌>>◌
  abbrev pub ◌>>◌ : Result (Unit {0}) → Result Y → Result Y
  statement >> rest = statement >>= λ done. rest

-- A loop that stops at the first exception.
abbrev pub map_result {ℓ κ} : {A : Type ℓ} {B : Type κ} → (A → Result B) → List A → Result (List B)
map_result f [] = ok []
map_result f (x ∷ xs) = do y ← f x; ys ← map_result f xs; ok (y ∷ ys)

module _ {κ ℓ} {X : Type κ} {Y : Type ℓ} where
  pub >>=-eq-ok :
      (m : Result X) (rest : X → Result Y) {y : Y}
      → (m >>= rest) ≡ ok y
      → (x : X) × (m ≡ ok x) × (rest x ≡ ok y)
  >>=-eq-ok (err raised) rest h = cc
  >>=-eq-ok (ok x) rest h = (x, refl, h)

pub ok-injective {ℓ} : {A : Type ℓ} {a b : A} → ok a ≡ ok b → a ≡ b
ok-injective h = cc

pub raise_if-eq-ok : (b : Bool) (e : Error) {u : Unit {0}} → raise_if b e ≡ ok u → b ≡ false
raise_if-eq-ok true e h = cc
raise_if-eq-ok false e h = refl

pub map_result-cons {ℓ κ} :
    {A : Type ℓ} {B : Type κ} (f : A → Result B) (x : A) (xs : List A) (y : B) (ys : List B)
    → map_result f (x ∷ xs) ≡ ok (y ∷ ys)
    → (f x ≡ ok y) × (map_result f xs ≡ ok ys)
map_result-cons f x xs y ys h =
    let (a, p, rest) = >>=-eq-ok (f x) (λ a. map_result f xs >>= λ more. ok (a ∷ more)) h in
    let (more, q, e) = >>=-eq-ok (map_result f xs) (λ more. ok (a ∷ more)) rest in
    (ground arith, ground arith)

pub length-map_result {ℓ κ} :
    {A : Type ℓ} {B : Type κ} (f : A → Result B) (xs : List A) {ys : List B}
    → map_result f xs ≡ ok ys
    → length ys ≡ length xs
length-map_result f [] h = ap length (sym (ok-injective h))
length-map_result f (x ∷ xs) h =
    let (a, p, rest) = >>=-eq-ok (f x) (λ a. map_result f xs >>= λ more. ok (a ∷ more)) h in
    let (more, q, e) = >>=-eq-ok (map_result f xs) (λ more. ok (a ∷ more)) rest in
    ap length (sym (ok-injective e)) ∙ ap suc (length-map_result f xs q)

module _ {ℓ κ} {A : Type ℓ} {B : Type κ} where
  pub map_result-append :
      (f : A → Result B) (xs ys : List A) (us vs : List B)
      → map_result f xs ≡ ok us
      → map_result f ys ≡ ok vs
      → map_result f (xs ++ ys) ≡ ok (us ++ vs)
  map_result-append f [] ys us vs h k = k ∙ ap (λ l. ok (l ++ vs)) (ok-injective h)
  map_result-append f (x ∷ xs) ys us vs h k =
      let (u, e, rest) = >>=-eq-ok (f x) (λ u. map_result f xs >>= λ more. ok (u ∷ more)) h in
      let (more, d, o) = >>=-eq-ok (map_result f xs) (λ more. ok (u ∷ more)) rest in
      rw (e, map_result-append f xs ys more vs d k) (ap (λ l. ok (l ++ vs)) (ok-injective o))
