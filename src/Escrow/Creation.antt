-- ===== src/Escrow/Creation.antt =====
-- `create_escrow` of contracts/escrow/src/lib.rs: fresh ids, the stored record, and solvency.
use native.Mathlib.Decide.{ℕ_discrete}
use stellarspend_contracts.Common.{
  ℕ, ◌+◌, ◌<◌, ◌≡◌, ◌≢◌, refl, inl, inr, Option, none, some, [], arith, ◌==◌, ==_self, insert,
  unwrap_or, push_back, true, false, Option-cases,
}
use stellarspend_contracts.Common.Int.{ℤ, pos, ◌+ℤ◌, ◌-ℤ◌, ◌≤ℤ◌, int_laws, checked_add_u64}
use stellarspend_contracts.Soroban.{Address, Env, Token, MovesFunds, ok}
use stellarspend_contracts.Escrow.Types.{Escrow, State, active, escrow_created, publish}
use stellarspend_contracts.Escrow.Locked.{locked, locked-insert_new, active_amount}
use stellarspend_contracts.Escrow.Lifecycle.{create_escrow, transfer_token}
use stellarspend_contracts.Escrow.Solvency.{counter, IsStored, IsSound, publish-IsSound}

deposit : (l b a : ℤ) → l ≤ℤ b → l +ℤ a ≤ℤ b -ℤ pos 0 +ℤ a
deposit l b a h = omega int_laws

module _ (tok : Token) (env : Env) where
  -- The record that a call stores.
  abbrev pub created :
      (escrow_id : ℕ) (depositor recipient token : Address) → Option Address → ℤ → ℕ → Escrow
  created escrow_id depositor recipient token arbiter amount deadline = record {
    escrow_id = escrow_id;
    depositor = depositor;
    recipient = recipient;
    arbiter = arbiter;
    token = token;
    amount = amount;
    status = active;
    created_at = env.sequence;
    deadline = deadline;
  }

  -- The state that a call leaves, but for its event.
  abbrev pub created_state : State tok.Ledger → tok.Ledger → Address → Escrow → State tok.Ledger
  created_state s l' depositor x = record s {
    ledger = l';
    escrow_counter = some x.escrow_id;
    escrows = insert x.escrow_id x s.escrows;
    user_escrows =
        insert depositor (push_back (unwrap_or (s.user_escrows depositor) []) x.escrow_id)
          s.user_escrows;
  }

  -- A creation that succeeds was authorized by the depositor, took a positive amount from the
  -- depositor into the contract, counted one id up, and stored an active record under that id.
  pub create_escrow_ok :
      (s s' : State tok.Ledger) (depositor recipient : Address) (arbiter : Option Address)
      (amount : ℤ) (deadline id : ℕ)
      → create_escrow tok env depositor recipient arbiter amount deadline s ≡ ok (id, s')
      → (t : Address) × (l' : tok.Ledger) × (s.token ≡ some t)
        × (tok.transfer t depositor env.contract amount s.ledger ≡ some l')
        × (env.authorized depositor ≡ true)
        × (pos 1 ≤ℤ amount)
        × (id ≡ counter s + 1)
        × (s'
            ≡ publish (escrow_created id depositor recipient arbiter amount) (
                created_state s l' depositor
                  (created id depositor recipient t arbiter amount deadline)))
  unfolding create_escrow transfer_token checked_add_u64
  create_escrow_ok s s' depositor recipient arbiter amount deadline id h =
      elim (Option-cases s.token) [
        | inl unset ↦ absurd (ground arith)
        | inr (t, e) ↦ elim (Option-cases (tok.transfer t depositor env.contract amount s.ledger)) [
          | inl refused ↦ absurd (ground arith)
          | inr (l', moved) ↦
              (t, l', e, moved, ground arith, ground arith, ground arith, ground arith)
        ]
      ]

  unused : (s : State tok.Ledger) (k : ℕ) → IsSound tok env s → counter s < k → s.escrows k ≡ none
  unused s k sound above = elim (Option-cases (s.escrows k)) [
    | inl free ↦ free
    | inr (x, e) ↦ absurd (omega (arith, (sound.stored k x e).counted))
  ]

  created-IsStored :
      (s : State tok.Ledger) (l' : tok.Ledger) (depositor recipient t : Address)
      (arbiter : Option Address) (amount : ℤ) (deadline : ℕ)
      → IsSound tok env s
      → pos 1 ≤ℤ amount
      → s.token ≡ some t
      → let x = created (counter s + 1) depositor recipient t arbiter amount deadline in
        let u = created_state s l' depositor x in
        (j : ℕ) (y : Escrow) → u.escrows j ≡ some y → IsStored u j y
  created-IsStored s l' depositor recipient t arbiter amount deadline sound positive et j y h =
      elim (ℕ_discrete (counter s + 1) j) [
        | yes same ↦ ground arith
        | no other ↦ ground (arith, sound.stored j y)
      ]

  created-solvent :
      MovesFunds tok
      → (s : State tok.Ledger) (l' : tok.Ledger) (depositor t : Address) (x : Escrow)
      → IsSound tok env s
      → depositor ≢ env.contract
      → x.status ≡ active
      → s.token ≡ some t
      → tok.transfer t depositor env.contract x.amount s.ledger ≡ some l'
      → locked (insert (counter s + 1) x s.escrows) (counter s + 1) ≤ℤ tok.balance t env.contract l'
  created-solvent moves s l' depositor t x sound other live et moved =
      let got = moves t depositor env.contract x.amount s.ledger l' moved t env.contract in
      let away : (depositor == env.contract) ≡ false = ground arith in
      let amount : active_amount (some x) ≡ x.amount = rw live in
      rw
        (
          locked-insert_new s.escrows x (counter s),
          amount,
          got,
          ==_self t,
          ==_self env.contract,
          away,
        )
        (deposit (locked s.escrows (counter s)) (tok.balance t env.contract s.ledger) x.amount
          (sound.solvent t et))

  -- Creating an escrow keeps the contract solvent, unless the contract deposits into itself.
  pub create_escrow-IsSound :
      MovesFunds tok
      → (s s' : State tok.Ledger) (depositor recipient : Address) (arbiter : Option Address)
        (amount : ℤ) (deadline id : ℕ)
      → IsSound tok env s
      → depositor ≢ env.contract
      → create_escrow tok env depositor recipient arbiter amount deadline s ≡ ok (id, s')
      → IsSound tok env s'
  create_escrow-IsSound moves s s' depositor recipient arbiter amount deadline id sound other h =
      let (t, l', et, moved, _, positive, eid, after) =
        create_escrow_ok s s' depositor recipient arbiter amount deadline id h in
      let x = created (counter s + 1) depositor recipient t arbiter amount deadline in
      rw (after, eid)
        (publish-IsSound tok env (escrow_created (counter s + 1) depositor recipient arbiter amount)
          (created_state s l' depositor x)
          (record {
            stored =
                created-IsStored s l' depositor recipient t arbiter amount deadline sound positive
                  et;
            solvent = λ t' et'.
                let same : t' ≡ t = cc in
                rw same (created-solvent moves s l' depositor t x sound other refl et moved);
          }))

  -- The id that a creation returns was never used, and only its record and the depositor's list of
  -- ids change.
  pub create_escrow_fresh :
      (s s' : State tok.Ledger) (depositor recipient : Address) (arbiter : Option Address)
      (amount : ℤ) (deadline id : ℕ)
      → IsSound tok env s
      → create_escrow tok env depositor recipient arbiter amount deadline s ≡ ok (id, s')
      → (s.escrows id ≡ none)
        × (counter s' ≡ id)
        × ((j : ℕ) → j ≢ id → s'.escrows j ≡ s.escrows j)
        × (s'.user_escrows depositor
            ≡ some (push_back (unwrap_or (s.user_escrows depositor) []) id))
        × ((a : Address) → a ≢ depositor → s'.user_escrows a ≡ s.user_escrows a)
  create_escrow_fresh s s' depositor recipient arbiter amount deadline id sound h =
      let (t, l', _, _, _, _, eid, after) =
        create_escrow_ok s s' depositor recipient arbiter amount deadline id h in
      (
        unused s id sound (omega arith),
        rw after,
        λ j ne. rw after (ground arith),
        rw after (ground arith),
        λ a ne. rw after (ground arith),
      )
