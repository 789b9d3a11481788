-- ===== src/Escrow/Batches.antt =====
-- What a batch of contracts/escrow/src/lib.rs that succeeds did: its checks, its second pass and its
-- answer.
use stellarspend_contracts.Common.{
  ℕ, ◌≤◌, ◌≡◌, inl, inr, some, List, arith, length, true, unwrap_or, Option-cases,
}
use stellarspend_contracts.Common.Int.{checked_add_u64}
use stellarspend_contracts.Soroban.{Address, Env, Token, ok, Result-cases}
use stellarspend_contracts.Escrow.Types.{
  EscrowEvent, State, ReversalRequest, ReleaseRequest, ReversalResult, ReleaseResult,
  BatchReversalResult, BatchReleaseResult, publish, max_batch_size,
}
use stellarspend_contracts.Escrow.Lifecycle.{require_admin}
use stellarspend_contracts.Escrow.Batch.{
  Tally, second_pass, reverse_one, release_one, validate_reversals, validate_releases,
  batch_reverse_escrows, batch_release_escrows, no_tally, check_batch_size, add_reversal_statistics,
  add_release_statistics,
}

-- Two states agree on all that the escrows and their funds are made of.
pub record Same {L : Type 0} (u s : State L) : Type 0 where
  pub escrows : s.escrows ≡ u.escrows
  pub token : s.token ≡ u.token
  pub ledger : s.ledger ≡ u.ledger
  pub escrow_counter : s.escrow_counter ≡ u.escrow_counter

module _ (tok : Token) (env : Env) where
  -- What `batch_release_escrows` did if it succeeds: the checks that it passed, the second pass that it
  -- ran, and its answer.
  pub batch_release_ok :
      (caller : Address) (requests : List ReleaseRequest) (s s' : State tok.Ledger)
      (r : BatchReleaseResult)
      → batch_release_escrows tok env caller requests s ≡ ok (r, s')
      → (admin : Address) × (token : Address) × (id : ℕ) × (t : Tally ReleaseResult) × (u : State
          tok.Ledger)
        × (s.admin ≡ some admin)
        × (s.token ≡ some token)
        × (env.authorized caller ≡ true)
        × (1 ≤ length requests)
        × (length requests ≤ max_batch_size)
        × (let s₁ = publish (EscrowEvent.batch_release_started id (length requests)) s in
            second_pass
              (release_one tok env id token)
              (validate_releases tok env caller admin s₁ requests)
              no_tally
              s₁
            ≡ ok (t, u))
        × (r ≡ record {
          batch_id = id;
          total_requests = length requests;
          successful = t.successful_count;
          failed = t.failed_count;
          total_released = t.total;
          results = t.results;
        })
        × Same u s'
  unfolding batch_release_escrows check_batch_size add_release_statistics
  batch_release_ok caller requests s s' r h = elim (Option-cases s.admin) [
    | inl unset ↦ absurd (ground arith)
    | inr (admin, a) ↦ elim (Option-cases s.token) [
      | inl unset ↦ absurd (ground arith)
      | inr (token, k) ↦
          elim (Option-cases (checked_add_u64 (unwrap_or s.total_release_batches 0) 1)) [
            | inl full ↦ absurd (ground arith)
            | inr (id, i) ↦
                let s₁ = publish (EscrowEvent.batch_release_started id (length requests)) s in
                elim (Result-cases (
                  second_pass (release_one tok env id token)
                    (validate_releases tok env caller admin s₁ requests) no_tally s₁)) [
                      | inl (_, failed) ↦ absurd (ground arith)
                      | inr ((t, u), passed) ↦ (
                        admin,
                        token,
                        id,
                        t,
                        u,
                        a,
                        k,
                        ground arith,
                        ground arith,
                        ground arith,
                        passed,
                        ground arith,
                        record {
                          escrows = ground arith;
                          token = ground arith;
                          ledger = ground arith;
                          escrow_counter = ground arith;
                        },
                      )
                    ]
          ]
    ]
  ]

  -- What `batch_reverse_escrows` did if it succeeds: the checks that it passed, the second pass that it
  -- ran, and its answer.
  pub batch_reverse_ok :
      (caller : Address) (requests : List ReversalRequest) (s s' : State tok.Ledger)
      (r : BatchReversalResult)
      → batch_reverse_escrows tok env caller requests s ≡ ok (r, s')
      → (admin : Address) × (token : Address) × (id : ℕ) × (t : Tally ReversalResult) × (u : State
          tok.Ledger)
        × (s.admin ≡ some admin)
        × (s.token ≡ some token)
        × (caller ≡ admin)
        × (env.authorized caller ≡ true)
        × (1 ≤ length requests)
        × (length requests ≤ max_batch_size)
        × (let s₁ = publish (EscrowEvent.batch_reversal_started id (length requests)) s in
            second_pass
              (reverse_one tok env id token)
              (validate_reversals tok env caller admin s₁ requests)
              no_tally
              s₁
            ≡ ok (t, u))
        × (r ≡ record {
          batch_id = id;
          total_requests = length requests;
          successful = t.successful_count;
          failed = t.failed_count;
          total_reversed = t.total;
          results = t.results;
        })
        × Same u s'
  unfolding batch_reverse_escrows check_batch_size add_reversal_statistics require_admin
  batch_reverse_ok caller requests s s' r h = elim (Option-cases s.admin) [
    | inl unset ↦ absurd (ground arith)
    | inr (admin, a) ↦ elim (Option-cases s.token) [
      | inl unset ↦ absurd (ground arith)
      | inr (token, k) ↦
          elim (Option-cases (checked_add_u64 (unwrap_or s.total_reversal_batches 0) 1)) [
            | inl full ↦ absurd (ground arith)
            | inr (id, i) ↦
                let s₁ = publish (EscrowEvent.batch_reversal_started id (length requests)) s in
                elim (Result-cases (
                  second_pass (reverse_one tok env id token)
                    (validate_reversals tok env caller admin s₁ requests) no_tally s₁)) [
                      | inl (_, failed) ↦ absurd (ground arith)
                      | inr ((t, u), passed) ↦ (
                        admin,
                        token,
                        id,
                        t,
                        u,
                        a,
                        k,
                        ground arith,
                        ground arith,
                        ground arith,
                        ground arith,
                        passed,
                        ground arith,
                        record {
                          escrows = ground arith;
                          token = ground arith;
                          ledger = ground arith;
                          escrow_counter = ground arith;
                        },
                      )
                    ]
          ]
    ]
  ]
