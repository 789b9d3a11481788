-- ===== src/Escrow/DoublePay.antt =====
-- The first pass of a batch reads every record before the second pass settles any, so an escrow that
-- a batch names twice is paid out twice (contracts/escrow/src/lib.rs, `batch_release_escrows`).
use stellarspend_contracts.Common.{
  ℕ, ◌+◌, ◌≡◌, ◌≢◌, refl, sym, ap, inl, inr, some, List, [], ◌∷◌, arith, true,
}
use stellarspend_contracts.Common.Int.{ℤ, ◌+ℤ◌, ◌-ℤ◌, int_laws}
use stellarspend_contracts.Soroban.{Address, Env, Token, MovesFunds, ok, >>=-succeeds}
use stellarspend_contracts.Soroban.Transfers.{transfer_between}
use stellarspend_contracts.Escrow.Types.{
  Escrow, EscrowEvent, State, ReleaseRequest, ReleaseResult, BatchReleaseResult, publish, active,
  released,
}
use stellarspend_contracts.Escrow.Parties.{IsParty, validate_release-some}
use stellarspend_contracts.Escrow.Batch.{
  Validated, Tally, release_one, second_pass, validate_releases, batch_release_escrows, no_tally,
}
use stellarspend_contracts.Escrow.Batches.{batch_release_ok}
use stellarspend_contracts.Escrow.Rounds.{release_one-IsRound}
use stellarspend_contracts.Escrow.Solvency.{settle_ok}

-- The request for one escrow, twice.
abbrev pub twice : ℕ → List ReleaseRequest
twice k = record { escrow_id = k } ∷ record { escrow_id = k } ∷ []

-- The entry of a valid request.
abbrev pub valid_entry : ℕ → Escrow → Validated
valid_entry k x = record { id = k; escrow_opt = some x; is_valid = true; error_code = 0 }

module _ (tok : Token) (env : Env) where
  validated_twice :
      (caller admin : Address) (s : State tok.Ledger) (k : ℕ) (x : Escrow)
      → s.escrows k ≡ some x
      → x.status ≡ active
      → IsParty x caller admin
      → validate_releases tok env caller admin s (twice k) ≡ valid_entry k x ∷ valid_entry k x ∷ []
  unfolding validate_releases
  validated_twice caller admin s k x e live party =
      rw (e, (validate_release-some x caller admin).1 (live, party))

  -- A round on a valid entry pays the recipient from the contract.
  pays_once :
      MovesFunds tok
      → (id k : ℕ) (token : Address) (x : Escrow) (t t' : Tally ReleaseResult)
        (s s' : State tok.Ledger)
      → x.recipient ≢ env.contract
      → release_one tok env id token (valid_entry k x) t s ≡ ok (t', s')
      → (t'.successful_count ≡ t.successful_count + 1)
        × (tok.balance token env.contract s'.ledger
            ≡ tok.balance token env.contract s.ledger -ℤ x.amount)
        × (tok.balance token x.recipient s'.ledger
            ≡ tok.balance token x.recipient s.ledger +ℤ x.amount)
  pays_once moves id k token x t t' s s' other h =
      elim (release_one-IsRound tok env id token (valid_entry k x) t s t' s' h) [
        | inl (bad, _) ↦ cc
        | inr (_, (y, u, r, ev, ey, paid, et, es)) ↦
            let same : x ≡ y = cc in
            let (l', moved, after) =
              settle_ok tok env s u token y.escrow_id y y.recipient released paid in
            let (out, got) =
              transfer_between tok moves token env.contract y.recipient y.amount s.ledger l'
                (λ p. other (rw same (sym p))) moved in
            rw (et, es, after, same) (refl, out, got)
      ]

  twice_out : (b x : ℤ) → b -ℤ x -ℤ x ≡ b -ℤ (x +ℤ x)
  twice_out b x = omega int_laws

  twice_in : (b x : ℤ) → b +ℤ x +ℤ x ≡ b +ℤ (x +ℤ x)
  twice_in b x = omega int_laws

  -- A batch that names one active escrow twice, from a party to it, answers two successes if it
  -- succeeds, and has paid the recipient twice the locked amount.
  pub batch_release_pays_twice :
      MovesFunds tok
      → (caller admin token : Address) (k : ℕ) (x : Escrow) (s s' : State tok.Ledger)
        (r : BatchReleaseResult)
      → s.admin ≡ some admin
      → s.token ≡ some token
      → s.escrows k ≡ some x
      → x.status ≡ active
      → IsParty x caller admin
      → x.recipient ≢ env.contract
      → batch_release_escrows tok env caller (twice k) s ≡ ok (r, s')
      → (r.successful ≡ 2)
        × (tok.balance token env.contract s'.ledger
            ≡ tok.balance token env.contract s.ledger -ℤ (x.amount +ℤ x.amount))
        × (tok.balance token x.recipient s'.ledger
            ≡ tok.balance token x.recipient s.ledger +ℤ (x.amount +ℤ x.amount))
  unfolding second_pass
  batch_release_pays_twice moves caller admin token k x s s' r ea et e live party other h =
      let (admin', token', id, t, u, ea', et', _, _, _, passed, er, same) =
        batch_release_ok tok env caller (twice k) s s' r h in
      let same_admin : admin' ≡ admin = cc in
      let same_token : token' ≡ token = cc in
      let s₁ = publish (EscrowEvent.batch_release_started id 2) s in
      let run =
        rw (same_admin, same_token, validated_twice caller admin s₁ k x e live party) at passed in
      let ((t₁, u₁), first, rest) =
        >>=-succeeds (release_one tok env id token (valid_entry k x) no_tally s₁)
          (λ p. second_pass (release_one tok env id token) (valid_entry k x ∷ []) p.0 p.1) run in
      let ((t₂, u₂), second, done) =
        >>=-succeeds (release_one tok env id token (valid_entry k x) t₁ u₁)
          (λ p. second_pass (release_one tok env id token) [] p.0 p.1) rest in
      let last_t : t₂ ≡ t = cc in
      let last_u : u₂ ≡ u = cc in
      let (n₁, out₁, in₁) = pays_once moves id k token x no_tally t₁ s₁ u₁ other first in
      let (n₂, out₂, in₂) = pays_once moves id k token x t₁ t₂ u₁ u₂ other second in
      (
        rw er (omega (arith, n₁, n₂, ap (λ (q : Tally ReleaseResult). q.successful_count) last_t)),
        rw (same.ledger, ← last_u, out₂, out₁)
            (twice_out (tok.balance token env.contract s.ledger) x.amount),
        rw (same.ledger, ← last_u, in₂, in₁)
            (twice_in (tok.balance token x.recipient s.ledger) x.amount),
      )
