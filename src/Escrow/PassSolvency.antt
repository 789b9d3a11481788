-- ===== src/Escrow/PassSolvency.antt =====
-- The second pass of the batches of contracts/escrow/src/lib.rs and solvency: what it needs to know of
-- the entries that the first pass has read.
use stellarspend_contracts.Common.{
  ℕ, ◌≡◌, ◌≢◌, inl, inr, some, List, [], ◌∷◌, arith, All, true, false,
}
use stellarspend_contracts.Soroban.{Address, Env, Token, MovesFunds, Result, ok, >>=-succeeds}
use stellarspend_contracts.Escrow.Types.{
  EscrowStatus, Escrow, EscrowEvent, EscrowError, State, publish,
}
use stellarspend_contracts.Escrow.Lifecycle.{is_active, settle}
use stellarspend_contracts.Escrow.Batch.{Validated, Tally, second_pass}
use stellarspend_contracts.Escrow.Solvency.{IsSound, settle_ok, settle-IsSound, publish-IsSound}
use stellarspend_contracts.Escrow.Rounds.{IsRound}

-- What the first pass has read of a request is what the storage holds.
abbrev pub IsRead : {L : Type 0} → State L → Validated → Type 0
IsRead s v =
    v.is_valid ≡ true
    → (x : Escrow) × (v.escrow_opt ≡ some x)
      × (s.escrows v.id ≡ some x)
      × (is_active x.status ≡ true)

-- No two entries have the same id.
abbrev pub IsDistinct : List Validated → Type 0
IsDistinct [] = Unit
IsDistinct (v ∷ vs) = All (λ w. w.id ≢ v.id) vs × IsDistinct vs

module _ (tok : Token) (env : Env) (payee : Escrow → Address) (status : EscrowStatus) {R : Type 0}
    (token : Address)
    (round : Validated
      → Tally R
      → State tok.Ledger
      → Result EscrowError (Tally R × State tok.Ledger))
    (is_round : IsRound tok env payee status token round) (moves : MovesFunds tok)
    (settled : is_active status ≡ false) where
  -- After one entry is settled, what was read of the others is still what is stored.
  reads_after :
      (s u : State tok.Ledger) (x : Escrow) (k : ℕ) (vs : List Validated)
      → settle tok env token k x (payee x) status s ≡ ok u
      → All (λ w. w.id ≢ k) vs
      → All (IsRead s) vs
      → All (IsRead u) vs
  reads_after s u x k [] paid other read = tt
  reads_after s u x k (w ∷ ws) paid (ne, others) (first, read) =
      let (l', _, after) = settle_ok tok env s u token k x (payee x) status paid in
      (
        λ good. let (y, e, stored, live) = first good in (y, e, rw after (ground arith), live),
        reads_after s u x k ws paid others read,
      )

  publish-reads :
      (ev : EscrowEvent) (s : State tok.Ledger) (vs : List Validated)
      → All (IsRead s) vs
      → All (IsRead (publish ev s)) vs
  publish-reads ev s [] read = tt
  publish-reads ev s (w ∷ ws) (first, read) = (first, publish-reads ev s ws read)

  -- The loop keeps the contract solvent if no two entries have the same id.
  pub second_pass-IsSound :
      (vs : List Validated) (t : Tally R) (s : State tok.Ledger) (t' : Tally R)
      (s' : State tok.Ledger)
      → IsSound tok env s
      → s.token ≡ some token
      → All (IsRead s) vs
      → IsDistinct vs
      → second_pass round vs t s ≡ ok (t', s')
      → IsSound tok env s'
  unfolding second_pass
  second_pass-IsSound [] t s t' s' sound et read distinct h =
      let same : s ≡ s' = cc in rw (← same) sound
  second_pass-IsSound (v ∷ vs) t s t' s' sound et (first, read) (others, distinct) h =
      let ((t₁, s₁), round_ok, rest) =
        >>=-succeeds (round v t s) (λ r. second_pass round vs r.0 r.1) h in
      elim (is_round v t s t₁ s₁ round_ok) [
        | inl (_, (_, ev, _, e)) ↦
            second_pass-IsSound vs t₁ s₁ t' s' (rw e (publish-IsSound tok env ev s sound)) (rw e et)
              (rw e (publish-reads ev s vs read)) distinct rest
        | inr (good, (x, u, _, ev, eo, paid, _, e)) ↦
            let (y, eo', stored, live) = first good in
            let same : y ≡ x = cc in
            let own = (sound.stored v.id y stored).own_id in
            let key : x.escrow_id ≡ v.id = rw (← same) own in
            let at_key : s.escrows x.escrow_id ≡ some x = cc (key, stored) in
            let (l', _, after) = settle_ok tok env s u token x.escrow_id x (payee x) status paid in
            let u_sound =
              settle-IsSound tok env moves s u token x.escrow_id x (payee x) status sound at_key et
                (rw (← same) live) settled paid in
            let u_read = reads_after s u x x.escrow_id vs paid (rw key others) read in
            second_pass-IsSound vs t₁ s₁ t' s' (rw e (publish-IsSound tok env ev u u_sound))
              (rw (e, after) et) (rw e (publish-reads ev u vs u_read)) distinct rest
      ]
