-- ===== src/OramEpoch/Once.antt =====
-- oram_epoch.py, `consume_epoch_once`: sequences of calls, and calls that raise.
use text.Mathlib.TextPositions.{eq_refl}
use fed_kg_rag_secure_impl.Prelude.{
  ℕ, ◌+◌, ◌≤◌, ◌≡◌, ap, ap₂, refl, sym, subst, ◌∙◌, arith, String, Bool, Bool-cases, true, false,
  inl, inr, List, [], ◌∷◌, ltb, eq_iff, if◌then◌else◌, ==→eq, ==_refl,
}
use fed_kg_rag_secure_impl.Python.{Result, ok, err, value_error, os_error, Error}
use fed_kg_rag_secure_impl.OramEpoch.{
  KgOramEpochAuthorization, Marker, Directory, same_marker, exists, unlink, consume_epoch_once,
}

pub same_marker_refl : (m : Marker) → same_marker m m ≡ true
same_marker_refl m = rw (==_refl m.server, eq_refl m.epoch_id) refl

same_marker→eq : (a b : Marker) → same_marker a b ≡ true → a ≡ b
same_marker→eq a b h =
    let servers : a.server ≡ b.server = ==→eq a.server b.server (ground arith) in
    let epochs : a.epoch_id ≡ b.epoch_id = (eq_iff a.epoch_id b.epoch_id).0 (ground arith) in
    ap₂ (λ s e. marker_of s e) servers epochs
  where
    marker_of : ℕ → String → Marker
    marker_of s e = record { server = s; epoch_id = e }

unlink-absent :
    (m : Marker) (directory : Directory)
    → exists m directory ≡ false
    → unlink m directory ≡ directory
unfolding unlink exists
unlink-absent m [] h = refl
unlink-absent m ((other, written) ∷ directory) h = elim (Bool-cases (same_marker m other)) [
  | inl same ↦ let gone = rw same at h in cc
  | inr apart ↦
      rw apart (ap (λ d. (other, written) ∷ d) (unlink-absent m directory (rw apart at h)))
]

unlink-created :
    (m : Marker) (authorization : KgOramEpochAuthorization) (directory : Directory)
    → exists m directory ≡ false
    → unlink m ((m, authorization) ∷ directory) ≡ directory
unfolding unlink
unlink-created m authorization directory h = rw (same_marker_refl m) (unlink-absent m directory h)

-- One call: its server, its authorization, and whether the file can be written.
pub record Attempt : Type 0 where
  pub server : ℕ
  pub authorization : KgOramEpochAuthorization
  pub writes : Bool

abbrev pub run_attempt : Directory → Attempt → Result Marker × Directory
run_attempt directory a = consume_epoch_once directory a.server a.authorization a.writes

abbrev pub returns : Marker → Result Marker → Bool
returns marker (ok m) = same_marker marker m
returns marker (err e) = false

-- How many of a sequence of calls succeed with a marker.
unfoldable pub successes : Marker → List Attempt → Directory → ℕ
successes marker [] directory = 0
successes marker (a ∷ attempts) directory =
    let (result, next) = run_attempt directory a in
    (if returns marker result then 1 else 0) + successes marker attempts next

abbrev pub marker_for : ℕ → KgOramEpochAuthorization → Marker
marker_for server authorization = record { server = server; epoch_id = authorization.epoch_id }

-- A call succeeds with a new marker, or it raises and nothing is changed.
pub data Outcome (directory : Directory) (server : ℕ) (authorization : KgOramEpochAuthorization)
    : Result Marker × Directory → Type 0 where
  consumed :
      exists (marker_for server authorization) directory ≡ false
      → Outcome directory server authorization (
        ok (marker_for server authorization),
        (marker_for server authorization, authorization) ∷ directory,
      )
  refused : (e : Error) → Outcome directory server authorization (err e, directory)

pub consume_epoch_once-Outcome :
    (directory : Directory) (server : ℕ) (authorization : KgOramEpochAuthorization) (writes : Bool)
    → Outcome directory server authorization
        (consume_epoch_once directory server authorization writes)
unfolding consume_epoch_once
consume_epoch_once-Outcome directory server authorization writes =
    elim (Bool-cases (ltb server 3)) [
      | inr large ↦ rw large (refused value_error)
      | inl small ↦ elim (Bool-cases (exists (marker_for server authorization) directory)) [
        | inl used ↦ rw (small, used) (refused value_error)
        | inr new ↦ elim (Bool-cases writes) [
          | inl written ↦ rw (small, new, written) (consumed new)
          | inr failed ↦
              rw (small, new, failed)
                (subst (λ d. Outcome directory server authorization (err os_error, d))
                  (sym
                    (unlink-created (marker_for server authorization) authorization directory new))
                  (refused os_error))
        ]
      ]
    ]

used_stays :
    (m : Marker) (directory : Directory) (server : ℕ) (authorization : KgOramEpochAuthorization)
    {x : Result Marker × Directory}
    → Outcome directory server authorization x
    → exists m directory ≡ true
    → (returns m x.0 ≡ false) × (exists m x.1 ≡ true)
unfolding exists
used_stays m directory server authorization (refused e) used = (refl, used)
used_stays m directory server authorization (consumed new) used =
    elim (Bool-cases (same_marker m (marker_for server authorization))) [
      | inl same ↦
          let clash = subst (λ k. exists k directory ≡ true) (same_marker→eq m _ same) used in
          absurd (true_false (sym clash ∙ new))
      | inr apart ↦ (apart, rw apart used)
    ]
  where
    true_false : true ≡ false → ⊥
    true_false e = cc

pub success_uses :
    (m : Marker) (directory : Directory) (server : ℕ) (authorization : KgOramEpochAuthorization)
    {x : Result Marker × Directory}
    → Outcome directory server authorization x
    → returns m x.0 ≡ true
    → exists m x.1 ≡ true
unfolding exists
success_uses m directory server authorization (refused e) h = cc
success_uses m directory server authorization (consumed new) h = rw h refl

pub successes_used :
    (m : Marker) (attempts : List Attempt) (directory : Directory)
    → exists m directory ≡ true
    → successes m attempts directory ≡ 0
unfolding successes
successes_used m [] directory used = refl
successes_used m (a ∷ attempts) directory used =
    let (fails, stays) =
      used_stays m directory a.server a.authorization
        (consume_epoch_once-Outcome directory a.server a.authorization a.writes) used in
    rw fails (omega (arith, successes_used m attempts (run_attempt directory a).1 stays))

-- From any directory, in any sequence of calls of `consume_epoch_once`, at most one call returns a
-- given marker.
pub successes-le_one :
    (m : Marker) (attempts : List Attempt) (directory : Directory)
    → successes m attempts directory ≤ 1
unfolding successes
successes-le_one m [] directory = omega arith
successes-le_one m (a ∷ attempts) directory =
    let outcome = consume_epoch_once-Outcome directory a.server a.authorization a.writes in
    let next = (run_attempt directory a).1 in
    elim (Bool-cases (returns m (run_attempt directory a).0)) [
      | inl succeeds ↦
          let spent =
            successes_used m attempts next
              (success_uses m directory a.server a.authorization outcome succeeds) in
          rw (succeeds, spent) (omega arith)
      | inr fails ↦ rw fails (omega (arith, successes-le_one m attempts next))
    ]

error_same :
    {directory : Directory} {server : ℕ} {authorization : KgOramEpochAuthorization}
    {x : Result Marker × Directory} {e : Error}
    → Outcome directory server authorization x
    → x.0 ≡ err e
    → x.1 ≡ directory
error_same (refused e) h = refl
error_same (consumed new) h = cc

-- When a call of `consume_epoch_once` raises, also when the writing of the file fails, the
-- directory is as it was before.
pub consume_epoch_once_error :
    (directory : Directory) (server : ℕ) (authorization : KgOramEpochAuthorization) (writes : Bool)
    {e : Error}
    → (consume_epoch_once directory server authorization writes).0 ≡ err e
    → (consume_epoch_once directory server authorization writes).1 ≡ directory
consume_epoch_once_error directory server authorization writes h =
    error_same (consume_epoch_once-Outcome directory server authorization writes) h
