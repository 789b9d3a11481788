-- ===== src/Escrow/BatchSolvency.antt =====
-- The batches of contracts/escrow/src/lib.rs keep the contract solvent if no id is named twice.
use stellarspend_contracts.Common.{
  ℕ, ◌≡◌, ◌≢◌, refl, inl, inr, Option, List, [], ◌∷◌, arith, All, length, true, Option-cases,
}
use stellarspend_contracts.Soroban.{Address, Env, Token, MovesFunds, ok}
use stellarspend_contracts.Escrow.Types.{
  Escrow, EscrowEvent, State, ReversalRequest, ReleaseRequest, BatchReversalResult,
  BatchReleaseResult, publish, released, reversed,
}
use stellarspend_contracts.Escrow.Validation.{
  Validation, valid, invalid, validate_release, validate_reversal,
}
use stellarspend_contracts.Escrow.Batch.{
  reverse_one, release_one, validate_reversals, validate_releases, batch_reverse_escrows,
  batch_release_escrows, no_tally, to_validated,
}
use stellarspend_contracts.Escrow.Solvency.{IsSound, publish-IsSound}
use stellarspend_contracts.Escrow.Rounds.{release_one-IsRound, reverse_one-IsRound}
use stellarspend_contracts.Escrow.Batches.{Same, batch_release_ok, batch_reverse_ok}
use stellarspend_contracts.Escrow.PassSolvency.{IsRead, IsDistinct, second_pass-IsSound}

module _ (tok : Token) (env : Env) where
  pub IsSound-of_Same : (u s : State tok.Ledger) → Same u s → IsSound tok env u → IsSound tok env s
  IsSound-of_Same u s same h = record {
    stored = λ k x e.
        let r = h.stored k x (rw (← same.escrows) e) in
        record {
          own_id = r.own_id;
          from_one = r.from_one;
          counted = rw same.escrow_counter r.counted;
          positive = r.positive;
          own_token = rw same.token r.own_token;
        };
    solvent = λ t e.
        rw (same.escrows, same.escrow_counter, same.ledger) (h.solvent t (rw (← same.token) e));
  }

to_validated-id : (k : ℕ) (e : Option Escrow) (v : Validation) → (to_validated k e v).id ≡ k
to_validated-id k e valid = refl
to_validated-id k e (invalid x) = refl

-- No two requests name the same escrow.
abbrev pub DistinctReleases : List ReleaseRequest → Type 0
DistinctReleases [] = Unit
DistinctReleases (q ∷ qs) = All (λ p. p.escrow_id ≢ q.escrow_id) qs × DistinctReleases qs

-- No two requests name the same escrow.
abbrev pub DistinctReversals : List ReversalRequest → Type 0
DistinctReversals [] = Unit
DistinctReversals (q ∷ qs) = All (λ p. p.escrow_id ≢ q.escrow_id) qs × DistinctReversals qs

module _ (tok : Token) (env : Env) where
  release-IsRead :
      (caller admin : Address) (s : State tok.Ledger) (k : ℕ)
      → IsRead s (to_validated k (s.escrows k) (validate_release (s.escrows k) caller admin))
  unfolding validate_release
  release-IsRead caller admin s k good = elim (Option-cases (s.escrows k)) [
    | inl missing ↦ absurd (ground arith)
    | inr (x, e) ↦ (x, ground arith, rw to_validated-id e, ground arith)
  ]

  reversal-IsRead :
      (caller admin : Address) (s : State tok.Ledger) (k : ℕ)
      → IsRead s (
          to_validated k
            (s.escrows k)
            (validate_reversal (s.escrows k) caller admin true env.sequence))
  unfolding validate_reversal
  reversal-IsRead caller admin s k good = elim (Option-cases (s.escrows k)) [
    | inl missing ↦ absurd (ground arith)
    | inr (x, e) ↦ (x, ground arith, rw to_validated-id e, ground arith)
  ]

  pub releases-IsRead :
      (caller admin : Address) (s : State tok.Ledger) (requests : List ReleaseRequest)
      → All (IsRead s) (validate_releases tok env caller admin s requests)
  unfolding validate_releases
  releases-IsRead caller admin s [] = tt
  releases-IsRead caller admin s (q ∷ qs) =
      (release-IsRead caller admin s q.escrow_id, releases-IsRead caller admin s qs)

  releases-others :
      (caller admin : Address) (s : State tok.Ledger) (k : ℕ) (requests : List ReleaseRequest)
      → All (λ p. p.escrow_id ≢ k) requests
      → All (λ w. w.id ≢ k) (validate_releases tok env caller admin s requests)
  unfolding validate_releases
  releases-others caller admin s k [] h = tt
  releases-others caller admin s k (q ∷ qs) (ne, h) = (
    rw
        (to_validated-id q.escrow_id (s.escrows q.escrow_id)
          (validate_release (s.escrows q.escrow_id) caller admin))
        ne,
    releases-others caller admin s k qs h,
  )

  releases-IsDistinct :
      (caller admin : Address) (s : State tok.Ledger) (requests : List ReleaseRequest)
      → DistinctReleases requests
      → IsDistinct (validate_releases tok env caller admin s requests)
  unfolding validate_releases
  releases-IsDistinct caller admin s [] h = tt
  releases-IsDistinct caller admin s (q ∷ qs) (others, h) = (
    rw
        (to_validated-id q.escrow_id (s.escrows q.escrow_id)
          (validate_release (s.escrows q.escrow_id) caller admin))
        (releases-others caller admin s q.escrow_id qs others),
    releases-IsDistinct caller admin s qs h,
  )

  -- A batch of releases that names no escrow twice keeps the contract solvent.
  pub batch_release-IsSound :
      MovesFunds tok
      → (caller : Address) (requests : List ReleaseRequest) (s s' : State tok.Ledger)
        (r : BatchReleaseResult)
      → IsSound tok env s
      → DistinctReleases requests
      → batch_release_escrows tok env caller requests s ≡ ok (r, s')
      → IsSound tok env s'
  batch_release-IsSound moves caller requests s s' r sound distinct h =
      let (admin, token, id, t, u, _, et, _, _, _, passed, _, same) =
        batch_release_ok tok env caller requests s s' r h in
      let ev = EscrowEvent.batch_release_started id (length requests) in
      IsSound-of_Same tok env u s' same (
        second_pass-IsSound tok env (λ x. x.recipient) released token (release_one tok env id token)
          (release_one-IsRound tok env id token) moves refl
          (validate_releases tok env caller admin (publish ev s) requests) no_tally (publish ev s) t
          u (publish-IsSound tok env ev s sound) et
          (releases-IsRead caller admin (publish ev s) requests)
          (releases-IsDistinct caller admin (publish ev s) requests distinct) passed)

  pub reversals-IsRead :
      (caller admin : Address) (s : State tok.Ledger) (requests : List ReversalRequest)
      → All (IsRead s) (validate_reversals tok env caller admin s requests)
  unfolding validate_reversals
  reversals-IsRead caller admin s [] = tt
  reversals-IsRead caller admin s (q ∷ qs) =
      (reversal-IsRead caller admin s q.escrow_id, reversals-IsRead caller admin s qs)

  reversals-others :
      (caller admin : Address) (s : State tok.Ledger) (k : ℕ) (requests : List ReversalRequest)
      → All (λ p. p.escrow_id ≢ k) requests
      → All (λ w. w.id ≢ k) (validate_reversals tok env caller admin s requests)
  unfolding validate_reversals
  reversals-others caller admin s k [] h = tt
  reversals-others caller admin s k (q ∷ qs) (ne, h) = (
    rw
        (to_validated-id q.escrow_id (s.escrows q.escrow_id)
          (validate_reversal (s.escrows q.escrow_id) caller admin true env.sequence))
        ne,
    reversals-others caller admin s k qs h,
  )

  reversals-IsDistinct :
      (caller admin : Address) (s : State tok.Ledger) (requests : List ReversalRequest)
      → DistinctReversals requests
      → IsDistinct (validate_reversals tok env caller admin s requests)
  unfolding validate_reversals
  reversals-IsDistinct caller admin s [] h = tt
  reversals-IsDistinct caller admin s (q ∷ qs) (others, h) = (
    rw
        (to_validated-id q.escrow_id (s.escrows q.escrow_id)
          (validate_reversal (s.escrows q.escrow_id) caller admin true env.sequence))
        (reversals-others caller admin s q.escrow_id qs others),
    reversals-IsDistinct caller admin s qs h,
  )

  -- A batch of reversals that names no escrow twice keeps the contract solvent.
  pub batch_reverse-IsSound :
      MovesFunds tok
      → (caller : Address) (requests : List ReversalRequest) (s s' : State tok.Ledger)
        (r : BatchReversalResult)
      → IsSound tok env s
      → DistinctReversals requests
      → batch_reverse_escrows tok env caller requests s ≡ ok (r, s')
      → IsSound tok env s'
  batch_reverse-IsSound moves caller requests s s' r sound distinct h =
      let (admin, token, id, t, u, _, et, _, _, _, _, passed, _, same) =
        batch_reverse_ok tok env caller requests s s' r h in
      let ev = EscrowEvent.batch_reversal_started id (length requests) in
      IsSound-of_Same tok env u s' same (
        second_pass-IsSound tok env (λ x. x.depositor) reversed token (reverse_one tok env id token)
          (reverse_one-IsRound tok env id token) moves refl
          (validate_reversals tok env caller admin (publish ev s) requests) no_tally (publish ev s)
          t u (publish-IsSound tok env ev s sound) et
          (reversals-IsRead caller admin (publish ev s) requests)
          (reversals-IsDistinct caller admin (publish ev s) requests distinct) passed)
