-- ===== src/Escrow/Finality.antt =====
-- The life of a record of contracts/escrow/src/lib.rs: what any sequence of calls can make of it.
use native.Mathlib.Decide.{ℕ_discrete}
use stellarspend_contracts.Common.{
  ℕ, ◌≡◌, ◌∙◌, ◌⊎◌, inl, inr, Option, some, List, [], ◌∷◌, arith, All, insert_at, insert_ne, length,
  true,
}
use stellarspend_contracts.Common.Int.{ℤ}
use stellarspend_contracts.Soroban.{Address, Env, Token, Result, ok, >>=-succeeds}
use stellarspend_contracts.Escrow.Types.{
  EscrowStatus, Escrow, EscrowEvent, EscrowError, State, ReversalRequest, ReleaseRequest,
  BatchReversalResult, BatchReleaseResult, publish, active, released, reversed,
}
use stellarspend_contracts.Escrow.Lifecycle.{is_active, create_escrow, release_escrow, set_admin}
use stellarspend_contracts.Escrow.Batch.{
  Validated, Tally, second_pass, reverse_one, release_one, validate_reversals, validate_releases,
  batch_reverse_escrows, batch_release_escrows, no_tally,
}
use stellarspend_contracts.Escrow.Solvency.{IsSound, settle_ok, release_escrow_ok}
use stellarspend_contracts.Escrow.Creation.{create_escrow_fresh}
use stellarspend_contracts.Escrow.Rounds.{IsRound, release_one-IsRound, reverse_one-IsRound}
use stellarspend_contracts.Escrow.Batches.{batch_release_ok, batch_reverse_ok}
use stellarspend_contracts.Escrow.PassSolvency.{IsRead}
use stellarspend_contracts.Escrow.BatchSolvency.{releases-IsRead, reversals-IsRead}

-- What is stored in the place of the record `x`: the record itself, or, if it was active, the record
-- with the status `st`.
abbrev pub Becomes : EscrowStatus → Escrow → Option Escrow → Type 0
Becomes st x o = (o ≡ some x) ⊎ ((x.status ≡ active) × (o ≡ some (record x { status = st })))

active_of_is_active : (st : EscrowStatus) → is_active st ≡ true → st ≡ active
active_of_is_active st h = ground arith

module _ (tok : Token) (env : Env) (payee : Escrow → Address) (st : EscrowStatus) {R : Type 0}
    (token : Address)
    (round : Validated
      → Tally R
      → State tok.Ledger
      → Result EscrowError (Tally R × State tok.Ledger))
    (is_round : IsRound tok env payee st token round) (k : ℕ) (x : Escrow) where
  -- An entry that would settle the record `k` holds `x`, and `x` is active.
  abbrev IsAbout : Validated → Type 0
  IsAbout v =
      v.is_valid ≡ true
      → (y : Escrow) × (v.escrow_opt ≡ some y) × (y.escrow_id ≡ k → (y ≡ x) × (x.status ≡ active))

  round-Becomes :
      (v : Validated) (t : Tally R) (s : State tok.Ledger) (t' : Tally R) (s' : State tok.Ledger)
      → IsAbout v
      → Becomes st x (s.escrows k)
      → round v t s ≡ ok (t', s')
      → Becomes st x (s'.escrows k)
  round-Becomes v t s t' s' about h r = elim (is_round v t s t' s' r) [
    | inl (_, (_, _, _, e)) ↦ rw e h
    | inr (good, (y, u, _, _, ey, paid, _, e)) ↦
        let (y', ey', same) = about good in
        let (l', _, after) = settle_ok tok env s u token y.escrow_id y (payee y) st paid in
        elim (ℕ_discrete y.escrow_id k) [
          | yes p ↦
              let one : y' ≡ y = cc in
              let q = same (rw one p) in
              let is_x : y ≡ x = cc (one, q.0) in
              inr (
                q.1,
                rw (e, after, insert_at y.escrow_id k (record y { status = st }) s.escrows p)
                    (rw is_x),
              )
          | no other ↦
              rw (e, after, insert_ne y.escrow_id k (record y { status = st }) s.escrows other) h
        ]
  ]

  second_pass-Becomes :
      (vs : List Validated) (t : Tally R) (s : State tok.Ledger) (t' : Tally R)
      (s' : State tok.Ledger)
      → All IsAbout vs
      → Becomes st x (s.escrows k)
      → second_pass round vs t s ≡ ok (t', s')
      → Becomes st x (s'.escrows k)
  unfolding second_pass
  second_pass-Becomes [] t s t' s' about h r = let same : s ≡ s' = cc in rw (← same) h
  second_pass-Becomes (v ∷ vs) t s t' s' (first, about) h r =
      let ((t₁, s₁), one, rest) =
        >>=-succeeds (round v t s) (λ p. second_pass round vs p.0 p.1) r in
      second_pass-Becomes vs t₁ s₁ t' s' about (round-Becomes v t s t₁ s₁ first h one) rest

module _ (tok : Token) (env : Env) where
  about_of_read :
      (s : State tok.Ledger) (k : ℕ) (x : Escrow) (vs : List Validated)
      → IsSound tok env s
      → s.escrows k ≡ some x
      → All (IsRead s) vs
      → All
          (λ v.
            v.is_valid ≡ true
            → (y : Escrow) × (v.escrow_opt ≡ some y)
              × (y.escrow_id ≡ k → (y ≡ x) × (x.status ≡ active)))
          vs
  about_of_read s k x [] sound e read = tt
  about_of_read s k x (v ∷ vs) sound e (first, read) = (
    λ good.
        let (y, ey, stored, live) = first good in
        (
          y,
          ey,
          λ p.
              let own = (sound.stored v.id y stored).own_id in
              let at : v.id ≡ k = cc (own, p) in
              let same : y ≡ x = cc (stored, e, at) in
              (same, active_of_is_active x.status (rw (← same) live)),
        ),
    about_of_read s k x vs sound e read,
  )

  -- A successful call of the contract's operations on escrows.
  pub data Step (s s' : State tok.Ledger) : Type 0 where
    create :
        (depositor recipient : Address) (arbiter : Option Address) (amount : ℤ) (deadline id : ℕ)
        → create_escrow tok env depositor recipient arbiter amount deadline s ≡ ok (id, s')
        → Step s s'
    release : (caller : Address) (k : ℕ) → release_escrow tok env caller k s ≡ ok s' → Step s s'
    reverse_batch :
        (caller : Address) (requests : List ReversalRequest) (r : BatchReversalResult)
        → batch_reverse_escrows tok env caller requests s ≡ ok (r, s')
        → Step s s'
    release_batch :
        (caller : Address) (requests : List ReleaseRequest) (r : BatchReleaseResult)
        → batch_release_escrows tok env caller requests s ≡ ok (r, s')
        → Step s s'
    change_admin : (old new : Address) → set_admin tok env old new s ≡ ok s' → Step s s'

  -- A stored record is kept by every call, batches that name an escrow twice included, but that an
  -- active one may become released or reversed.
  pub Step-keeps :
      (s s' : State tok.Ledger) (k : ℕ) (x : Escrow)
      → IsSound tok env s
      → s.escrows k ≡ some x
      → Step s s'
      → Becomes released x (s'.escrows k) ⊎ Becomes reversed x (s'.escrows k)
  Step-keeps s s' k x sound e (create depositor recipient arbiter amount deadline id h) =
      let (free, _, others, _, _) =
        create_escrow_fresh tok env s s' depositor recipient arbiter amount deadline id sound h in
      inl (inl (others k (λ p. cc) ∙ e))
  Step-keeps s s' k x sound e (release caller i h) =
      let (y, l', _, stored, _, _, live, _, _, after) = release_escrow_ok tok env s s' caller i h in
      elim (ℕ_discrete i k) [
        | yes p ↦
            let same : y ≡ x = cc in
            inl (
              inr (
                rw (← same) live,
                rw (after, insert_at i k (record y { status = released }) s.escrows p) (rw same),
              ))
        | no other ↦
            inl (inl (rw (after, insert_ne i k (record y { status = released }) s.escrows other) e))
      ]
  Step-keeps s s' k x sound e (reverse_batch caller requests r h) =
      let (admin, token, id, t, u, _, _, _, _, _, _, passed, _, same) =
        batch_reverse_ok tok env caller requests s s' r h in
      let s₁ = publish (EscrowEvent.batch_reversal_started id (length requests)) s in
      let vs = validate_reversals tok env caller admin s₁ requests in
      inr (
        rw same.escrows (
          second_pass-Becomes tok env (λ y. y.depositor) reversed token
            (reverse_one tok env id token) (reverse_one-IsRound tok env id token) k x vs no_tally s₁
            t u (about_of_read s k x vs sound e (reversals-IsRead tok env caller admin s₁ requests))
            (inl e) passed))
  Step-keeps s s' k x sound e (release_batch caller requests r h) =
      let (admin, token, id, t, u, _, _, _, _, _, passed, _, same) =
        batch_release_ok tok env caller requests s s' r h in
      let s₁ = publish (EscrowEvent.batch_release_started id (length requests)) s in
      let vs = validate_releases tok env caller admin s₁ requests in
      inl (
        rw same.escrows (
          second_pass-Becomes tok env (λ y. y.recipient) released token
            (release_one tok env id token) (release_one-IsRound tok env id token) k x vs no_tally s₁
            t u (about_of_read s k x vs sound e (releases-IsRead tok env caller admin s₁ requests))
            (inl e) passed))
  Step-keeps s s' k x sound e (change_admin old new h) =
      inl (inl (unfold set_admin in ground arith))
