-- ===== src/Escrow/Rounds.antt =====
-- The second pass of the batches of contracts/escrow/src/lib.rs, for both kinds at once: what a
-- round does, and what the loop over the rounds keeps.
use stellarspend_contracts.Common.{
  ℕ, ◌+◌, ◌≡◌, ◌⊎◌, inl, inr, some, List, [], ◌∷◌, arith, length, length-push_back, true, false,
  Option-cases, Bool-cases,
}
use stellarspend_contracts.Soroban.{Address, Env, Token, Result, ok, >>=-succeeds, Result-cases}
use stellarspend_contracts.Escrow.Types.{
  EscrowStatus, Escrow, EscrowEvent, EscrowError, State, ReversalResult, ReleaseResult, publish,
  released, reversed,
}
use stellarspend_contracts.Escrow.Lifecycle.{settle}
use stellarspend_contracts.Escrow.Batch.{
  Validated, Tally, record_failure, record_success, second_pass, reverse_one, release_one,
}

module _ (tok : Token) (env : Env) (payee : Escrow → Address) (status : EscrowStatus) where
  -- A round that succeeds records a failure, or settles the record and records a success.
  abbrev pub Outcome :
      {R : Type 0}
      → Address
      → Validated
      → Tally R
      → State tok.Ledger
      → Tally R
      → State tok.Ledger
      → Type 0
  Outcome {R} token v t s t' s' =
      ((v.is_valid ≡ false)
        × ((r : R) × (ev : EscrowEvent) × (t' ≡ record_failure r t) × (s' ≡ publish ev s)))
      ⊎ ((v.is_valid ≡ true)
          × ((x : Escrow) × (u : State tok.Ledger) × (r : R) × (ev : EscrowEvent) × (v.escrow_opt
                ≡ some x)
              × (settle tok env token x.escrow_id x (payee x) status s ≡ ok u)
              × (t' ≡ record_success r x.amount t)
              × (s' ≡ publish ev u)))

  abbrev pub IsRound :
      {R : Type 0}
      → Address
      → (Validated → Tally R → State tok.Ledger → Result EscrowError (Tally R × State tok.Ledger))
      → Type 0
  IsRound {R} token round =
      (v : Validated) (t : Tally R) (s : State tok.Ledger) (t' : Tally R) (s' : State tok.Ledger)
      → round v t s ≡ ok (t', s')
      → Outcome token v t s t' s'

module _ (tok : Token) (env : Env) (batch_id : ℕ) (token : Address) where
  pub reverse_one-IsRound :
      IsRound tok env (λ x. x.depositor) reversed token (reverse_one tok env batch_id token)
  unfolding reverse_one
  reverse_one-IsRound v t s t' s' h = elim (Bool-cases v.is_valid) [
    | inr bad ↦ inl (
      bad,
      (
        ReversalResult.failure v.id v.error_code,
        EscrowEvent.reversal_failure batch_id v.id v.error_code,
        ground arith,
        ground arith,
      ),
    )
    | inl good ↦ elim (Option-cases v.escrow_opt) [
      | inl missing ↦ absurd (ground arith)
      | inr (x, e) ↦
          elim (Result-cases (settle tok env token x.escrow_id x x.depositor reversed s)) [
            | inl (_, refused) ↦ absurd (ground arith)
            | inr (u, paid) ↦ inr (
              good,
              (
                x,
                u,
                ReversalResult.success x.escrow_id x.depositor x.amount,
                EscrowEvent.reversal_success batch_id x.escrow_id x.depositor x.amount,
                e,
                paid,
                ground arith,
                ground arith,
              ),
            )
          ]
    ]
  ]

  pub release_one-IsRound :
      IsRound tok env (λ x. x.recipient) released token (release_one tok env batch_id token)
  unfolding release_one
  release_one-IsRound v t s t' s' h = elim (Bool-cases v.is_valid) [
    | inr bad ↦ inl (
      bad,
      (
        ReleaseResult.failure v.id v.error_code,
        EscrowEvent.release_failure batch_id v.id v.error_code,
        ground arith,
        ground arith,
      ),
    )
    | inl good ↦ elim (Option-cases v.escrow_opt) [
      | inl missing ↦ absurd (ground arith)
      | inr (x, e) ↦
          elim (Result-cases (settle tok env token x.escrow_id x x.recipient released s)) [
            | inl (_, refused) ↦ absurd (ground arith)
            | inr (u, paid) ↦ inr (
              good,
              (
                x,
                u,
                ReleaseResult.success x.escrow_id x.recipient x.amount,
                EscrowEvent.release_success batch_id x.escrow_id x.recipient x.amount,
                e,
                paid,
                ground arith,
                ground arith,
              ),
            )
          ]
    ]
  ]

-- The loop, for rounds of either kind.
module _ (tok : Token) (env : Env) (payee : Escrow → Address) (status : EscrowStatus) {R : Type 0}
    (token : Address)
    (round : Validated
      → Tally R
      → State tok.Ledger
      → Result EscrowError (Tally R × State tok.Ledger))
    (is_round : IsRound tok env payee status token round) where
  counted-round :
      (v : Validated) (t : Tally R) (s : State tok.Ledger) (t' : Tally R) (s' : State tok.Ledger)
      → round v t s ≡ ok (t', s')
      → (length t'.results ≡ length t.results + 1)
        × (t'.successful_count + t'.failed_count ≡ t.successful_count + t.failed_count + 1)
  counted-round v t s t' s' h = elim (is_round v t s t' s' h) [
    | inl (_, (r, _, e, _)) ↦ rw e (length-push_back t.results r, omega arith)
    | inr (_, (_, _, r, _, _, _, e, _)) ↦ rw e (length-push_back t.results r, omega arith)
  ]

  -- Every entry is counted once and has one result.
  pub second_pass_counts :
      (vs : List Validated) (t : Tally R) (s : State tok.Ledger) (t' : Tally R)
      (s' : State tok.Ledger)
      → second_pass round vs t s ≡ ok (t', s')
      → (length t'.results ≡ length t.results + length vs)
        × (t'.successful_count + t'.failed_count ≡ t.successful_count + t.failed_count + length vs)
  unfolding second_pass
  second_pass_counts [] t s t' s' h = ground arith
  second_pass_counts (v ∷ vs) t s t' s' h =
      let ((t₁, s₁), first, rest) =
        >>=-succeeds (round v t s) (λ r. second_pass round vs r.0 r.1) h in
      let one = counted-round v t s t₁ s₁ first in
      let more = second_pass_counts vs t₁ s₁ t' s' rest in
      (omega (arith, one, more), omega (arith, one, more))
