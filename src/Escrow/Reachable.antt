-- ===== src/Escrow/Reachable.antt =====
-- Sequences of calls of the contract of contracts/escrow/src/lib.rs, each under its own ledger time
-- and authorizations, from its initialization on.
use stellarspend_contracts.Common.{ℕ, ◌≡◌, ◌≢◌, sym, inl, inr, Option, none, some, arith}
use stellarspend_contracts.Common.Int.{pos, ◌≤ℤ◌}
use stellarspend_contracts.Soroban.{Address, Env, Token, MovesFunds, ok}
use stellarspend_contracts.Escrow.Types.{Escrow, State, active}
use stellarspend_contracts.Escrow.Lifecycle.{initialize, set_admin, require_admin}
use stellarspend_contracts.Escrow.Locked.{locked-empty}
use stellarspend_contracts.Escrow.Solvency.{counter, IsSound, release_escrow-IsSound}
use stellarspend_contracts.Escrow.Creation.{create_escrow-IsSound}
use stellarspend_contracts.Escrow.BatchSolvency.{
  IsSound-of_Same, DistinctReleases, DistinctReversals, batch_release-IsSound,
  batch_reverse-IsSound,
}
use stellarspend_contracts.Escrow.Batches.{Same}
use stellarspend_contracts.Escrow.Finality.{Step, Step-keeps}

not_some : {A : Type 0} {o : Option A} {a : A} → o ≡ none → o ≡ some a → ⊥
not_some h e = cc

module _ (tok : Token) where
  -- A call by anyone but the contract itself, which names no escrow twice in a batch.
  abbrev pub IsProper : (env : Env) {s s' : State tok.Ledger} → Step tok env s s' → Type 0
  IsProper env (Step.create depositor recipient arbiter amount deadline id h) =
      depositor ≢ env.contract
  IsProper env (Step.release caller k h) = Unit
  IsProper env (Step.reverse_batch caller requests r h) = DistinctReversals requests
  IsProper env (Step.release_batch caller requests r h) = DistinctReleases requests
  IsProper env (Step.change_admin old new h) = Unit

  set_admin-Same :
      (env : Env) (old new : Address) (s s' : State tok.Ledger)
      → set_admin tok env old new s ≡ ok s'
      → Same s s'
  unfolding set_admin require_admin
  set_admin-Same env old new s s' h = ground arith

  set_admin-IsSound :
      (env : Env) (old new : Address) (s s' : State tok.Ledger)
      → IsSound tok env s
      → set_admin tok env old new s ≡ ok s'
      → IsSound tok env s'
  set_admin-IsSound env old new s s' sound h =
      IsSound-of_Same tok env s s' (set_admin-Same env old new s s' h) sound

  Step-IsSound :
      MovesFunds tok
      → (env : Env) {s s' : State tok.Ledger} (st : Step tok env s s') → IsProper env st
      → IsSound tok env s
      → IsSound tok env s'
  Step-IsSound moves env {s} {s'} (Step.create depositor recipient arbiter amount deadline id h)
        other sound =
      create_escrow-IsSound tok env moves s s' depositor recipient arbiter amount deadline id sound
        other h
  Step-IsSound moves env {s} {s'} (Step.release caller k h) _ sound =
      release_escrow-IsSound tok env moves s s' caller k sound h
  Step-IsSound moves env {s} {s'} (Step.reverse_batch caller requests r h) distinct sound =
      batch_reverse-IsSound tok env moves caller requests s s' r sound distinct h
  Step-IsSound moves env {s} {s'} (Step.release_batch caller requests r h) distinct sound =
      batch_release-IsSound tok env moves caller requests s s' r sound distinct h
  Step-IsSound moves env {s} {s'} (Step.change_admin old new h) _ sound =
      set_admin-IsSound env old new s s' sound h

  -- The invariant looks at the contract's address alone.
  IsSound-env :
      (env env' : Env) (s : State tok.Ledger)
      → env'.contract ≡ env.contract
      → IsSound tok env s
      → IsSound tok env' s
  IsSound-env env env' s e h = record { stored = h.stored; solvent = λ t et. rw e (h.solvent t et) }

  -- Any number of proper calls of the contract at the address `self`.
  pub data Run (self : Address) (s : State tok.Ledger) : State tok.Ledger → Type 0 where
    start : Run self s s
    next :
        {t u : State tok.Ledger}
        → Run self s t
        → (env : Env) → env.contract ≡ self
        → (st : Step tok env t u) → IsProper env st
        → Run self s u

  -- Every run keeps the contract solvent.
  pub Run-IsSound :
      MovesFunds tok
      → (env : Env) {s s' : State tok.Ledger} → IsSound tok env s
      → Run env.contract s s'
      → IsSound tok env s'
  Run-IsSound moves env sound start = sound
  Run-IsSound moves env sound (next {t} {u} run env' e st proper) = IsSound-env env' env u (sym e) (
      Step-IsSound moves env' st proper
        (IsSound-env env env' t e (Run-IsSound moves env sound run)))

  -- An initialization of a contract that has stored nothing and has no debt leaves it solvent.
  pub initialize-IsSound :
      (env : Env) (admin token : Address) (s s' : State tok.Ledger)
      → ((k : ℕ) → s.escrows k ≡ none)
      → pos 0 ≤ℤ tok.balance token env.contract s.ledger
      → initialize tok env admin token s ≡ ok s'
      → IsSound tok env s'
  unfolding initialize
  initialize-IsSound env admin token s s' empty funds h =
      let kept : s'.escrows ≡ s.escrows = ground arith in
      let money : s'.ledger ≡ s.ledger = ground arith in
      let named : s'.token ≡ some token = ground arith in
      record {
        stored = λ k x e.
            let before : s.escrows k ≡ some x = rw (← kept) e in absurd (not_some (empty k) before);
        solvent = λ t et.
            let same : t ≡ token = cc in
            rw (kept, money, same, locked-empty s.escrows (counter s') empty) funds;
      }

  -- Where transfers move funds as documented, a record of a sound state that is released or reversed
  -- stays exactly as it is through every run.
  pub Run-keeps_settled :
      MovesFunds tok
      → (env : Env) (k : ℕ) (x : Escrow) {s s' : State tok.Ledger} → IsSound tok env s
      → s.escrows k ≡ some x
      → x.status ≢ active
      → Run env.contract s s'
      → s'.escrows k ≡ some x
  Run-keeps_settled moves env k x sound e done start = e
  Run-keeps_settled moves env k x sound e done (next {t} {u} run env' c st proper) =
      let before = Run-keeps_settled moves env k x sound e done run in
      let sound_t = IsSound-env env env' t c (Run-IsSound moves env sound run) in
      elim (Step-keeps tok env' t u k x sound_t before st) [
        | inl (inl same) ↦ same
        | inl (inr (live, _)) ↦ absurd (done live)
        | inr (inl same) ↦ same
        | inr (inr (live, _)) ↦ absurd (done live)
      ]
