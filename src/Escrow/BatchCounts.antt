-- ===== src/Escrow/BatchCounts.antt =====
-- The answers of the batches of contracts/escrow/src/lib.rs: one result for each request.
use stellarspend_contracts.Common.{suc, ◌+◌, ◌≤◌, ◌≡◌, refl, ap, List, [], ◌∷◌, arith, length}
use stellarspend_contracts.Soroban.{Address, Env, Token, ok}
use stellarspend_contracts.Escrow.Types.{
  EscrowEvent, State, ReversalRequest, ReleaseRequest, BatchReversalResult, BatchReleaseResult,
  publish, released, reversed, max_batch_size,
}
use stellarspend_contracts.Escrow.Batch.{
  reverse_one, release_one, validate_reversals, validate_releases, batch_reverse_escrows,
  batch_release_escrows, no_tally,
}
use stellarspend_contracts.Escrow.Batches.{batch_release_ok, batch_reverse_ok}
use stellarspend_contracts.Escrow.Rounds.{
  second_pass_counts, release_one-IsRound, reverse_one-IsRound,
}

module _ (tok : Token) (env : Env) where
  length-validate_releases :
      (caller admin : Address) (s : State tok.Ledger) (requests : List ReleaseRequest)
      → length (validate_releases tok env caller admin s requests) ≡ length requests
  unfolding validate_releases
  length-validate_releases caller admin s [] = refl
  length-validate_releases caller admin s (q ∷ qs) =
      ap suc (length-validate_releases caller admin s qs)

  -- A batch of releases that succeeds has between 1 and 100 requests, answers each of them once, in
  -- as many results, and counts each as a success or as a failure.
  pub batch_release_counts :
      (caller : Address) (requests : List ReleaseRequest) (s s' : State tok.Ledger)
      (r : BatchReleaseResult)
      → batch_release_escrows tok env caller requests s ≡ ok (r, s')
      → (1 ≤ length requests)
        × (length requests ≤ max_batch_size)
        × (r.total_requests ≡ length requests)
        × (length r.results ≡ length requests)
        × (r.successful + r.failed ≡ length requests)
  batch_release_counts caller requests s s' r h =
      let (admin, token, id, t, u, _, _, _, lo, hi, passed, er, _) =
        batch_release_ok tok env caller requests s s' r h in
      let s₁ = publish (EscrowEvent.batch_release_started id (length requests)) s in
      let counts =
        second_pass_counts tok env (λ x. x.recipient) released token (release_one tok env id token)
          (release_one-IsRound tok env id token)
          (validate_releases tok env caller admin s₁ requests) no_tally s₁ t u passed in
      let all = length-validate_releases caller admin s₁ requests in
      rw er (lo, hi, refl, omega (arith, counts, all), omega (arith, counts, all))

  length-validate_reversals :
      (caller admin : Address) (s : State tok.Ledger) (requests : List ReversalRequest)
      → length (validate_reversals tok env caller admin s requests) ≡ length requests
  unfolding validate_reversals
  length-validate_reversals caller admin s [] = refl
  length-validate_reversals caller admin s (q ∷ qs) =
      ap suc (length-validate_reversals caller admin s qs)

  -- A batch of reversals that succeeds has between 1 and 100 requests, answers each of them once, in
  -- as many results, and counts each as a success or as a failure.
  pub batch_reverse_counts :
      (caller : Address) (requests : List ReversalRequest) (s s' : State tok.Ledger)
      (r : BatchReversalResult)
      → batch_reverse_escrows tok env caller requests s ≡ ok (r, s')
      → (1 ≤ length requests)
        × (length requests ≤ max_batch_size)
        × (r.total_requests ≡ length requests)
        × (length r.results ≡ length requests)
        × (r.successful + r.failed ≡ length requests)
  batch_reverse_counts caller requests s s' r h =
      let (admin, token, id, t, u, _, _, _, _, lo, hi, passed, er, _) =
        batch_reverse_ok tok env caller requests s s' r h in
      let s₁ = publish (EscrowEvent.batch_reversal_started id (length requests)) s in
      let counts =
        second_pass_counts tok env (λ x. x.depositor) reversed token (reverse_one tok env id token)
          (reverse_one-IsRound tok env id token)
          (validate_reversals tok env caller admin s₁ requests) no_tally s₁ t u passed in
      let all = length-validate_reversals caller admin s₁ requests in
      rw er (lo, hi, refl, omega (arith, counts, all), omega (arith, counts, all))
