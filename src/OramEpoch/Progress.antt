-- ===== src/OramEpoch/Progress.antt =====
-- oram_epoch.py, `consume_epoch_once`: calls for a marker that is not used yet.
use fed_kg_rag_secure_impl.Prelude.{
  ℕ, ◌<◌, ◌⊎◌, ◌≡◌, ap, refl, sym, subst, ◌∙◌, arith, Bool-cases, true, false, inl, inr, List, [],
  ◌∷◌, ltb,
}
use fed_kg_rag_secure_impl.Python.{Result, ok}
use fed_kg_rag_secure_impl.OramEpoch.{
  KgOramEpochAuthorization, Marker, Directory, same_marker, exists, consume_epoch_once,
}
use fed_kg_rag_secure_impl.OramEpoch.Once.{
  same_marker_refl, Attempt, run_attempt, returns, successes, marker_for, Outcome, consumed,
  refused, consume_epoch_once-Outcome, success_uses, successes_used,
}

-- Some call of the sequence is for the marker and can write.
unfoldable pub Tries : Marker → List Attempt → Type 0
Tries m [] = ⊥
Tries m (a ∷ attempts) =
    ((marker_for a.server a.authorization ≡ m) × (a.writes ≡ true)) ⊎ Tries m attempts

consume_epoch_once_new :
    (directory : Directory) (server : ℕ) (authorization : KgOramEpochAuthorization)
    → ltb server 3 ≡ true
    → exists (marker_for server authorization) directory ≡ false
    → (consume_epoch_once directory server authorization true).0
      ≡ ok (marker_for server authorization)
unfolding consume_epoch_once
consume_epoch_once_new directory server authorization small new = rw (small, new) refl

other_stays :
    (m : Marker) (directory : Directory) (server : ℕ) (authorization : KgOramEpochAuthorization)
    {x : Result Marker × Directory}
    → Outcome directory server authorization x
    → returns m x.0 ≡ false
    → exists m x.1 ≡ exists m directory
unfolding exists
other_stays m directory server authorization (refused e) h = refl
other_stays m directory server authorization (consumed new) h = rw h refl

tried_returns :
    (m : Marker) (a : Attempt) (directory : Directory)
    → ltb m.server 3 ≡ true
    → exists m directory ≡ false
    → marker_for a.server a.authorization ≡ m
    → a.writes ≡ true
    → returns m (run_attempt directory a).0 ≡ true
tried_returns m a directory small new same writes =
    let succeeds =
      consume_epoch_once_new directory a.server a.authorization
        (subst (λ (k : Marker). ltb k.server 3 ≡ true) (sym same) small)
        (subst (λ k. exists k directory ≡ false) (sym same) new) in
    ap (λ w. returns m (consume_epoch_once directory a.server a.authorization w).0) writes
    ∙ ap (returns m) succeeds
    ∙ ap (same_marker m) same
    ∙ same_marker_refl m

-- For a server below three, when a marker is not in the directory and some call of a sequence of
-- calls of `consume_epoch_once`, in any order and with other servers and epochs, is for the marker
-- and can write its file, exactly one call of the sequence returns the marker.
pub successes-eq_one :
    (m : Marker) (attempts : List Attempt) (directory : Directory)
    → m.server < 3
    → exists m directory ≡ false
    → Tries m attempts
    → successes m attempts directory ≡ 1
unfolding successes Tries
successes-eq_one m [] directory small new tries = elim tries [ ]
successes-eq_one m (a ∷ attempts) directory small new tries =
    let outcome = consume_epoch_once-Outcome directory a.server a.authorization a.writes in
    let next = (run_attempt directory a).1 in
    elim (Bool-cases (returns m (run_attempt directory a).0)) [
      | inl succeeds ↦
          let spent =
            successes_used m attempts next
              (success_uses m directory a.server a.authorization outcome succeeds) in
          rw (succeeds, spent) (omega arith)
      | inr fails ↦
          let still = other_stays m directory a.server a.authorization outcome fails ∙ new in
          let rest : Tries m attempts = elim tries [
            | inl head ↦ absurd (
                false_true
                  (sym fails ∙ tried_returns m a directory (ground arith) new head.0 head.1))
            | inr tail ↦ tail
          ] in
          rw fails (omega (arith, successes-eq_one m attempts next small still rest))
    ]
  where
    false_true : false ≡ true → ⊥
    false_true e = cc
