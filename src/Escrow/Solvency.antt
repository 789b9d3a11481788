-- ===== src/Escrow/Solvency.antt =====
-- The contract holds enough of its token to pay every active escrow: the invariant, and the
-- operations on one escrow that keep it.
use stellarspend_contracts.Common.{
  ℕ, ◌≤◌, ◌≡◌, ◌∙◌, ap, refl, inl, inr, some, arith, ==_self, insert, unwrap_or, true, false,
  Option-cases,
}
use native.Mathlib.Decide.{ℕ_discrete}
use stellarspend_contracts.Common.Int.{ℤ, pos, ◌+ℤ◌, ◌-ℤ◌, ◌≤ℤ◌, int_laws}
use stellarspend_contracts.Soroban.{Result-cases, Address, Env, Token, MovesFunds, at_address, ok}
use stellarspend_contracts.Escrow.Types.{
  EscrowEvent, EscrowStatus, Escrow, State, active, released, escrow_released,
}
use stellarspend_contracts.Escrow.Locked.{locked, locked-insert, active_amount}
use stellarspend_contracts.Escrow.Parties.{IsParty}
use stellarspend_contracts.Escrow.Types.{publish}
use stellarspend_contracts.Escrow.Lifecycle.{is_active, transfer_token, settle, release_escrow}

abbrev pub counter : {L : Type 0} → State L → ℕ
counter s = unwrap_or s.escrow_counter 0

-- What holds of each stored record.
pub record IsStored {L : Type 0} (s : State L) (k : ℕ) (x : Escrow) : Type 0 where
  pub own_id : x.escrow_id ≡ k
  pub from_one : 1 ≤ k
  pub counted : k ≤ counter s
  pub positive : pos 1 ≤ℤ x.amount
  pub own_token : s.token ≡ some x.token

at_address_nonneg : (a b : Address) (x : ℤ) → pos 0 ≤ℤ x → pos 0 ≤ℤ at_address a b x
at_address_nonneg a b x h = ground arith

payout : (l b a o : ℤ) → l ≤ℤ b → pos 0 ≤ℤ o → l -ℤ a +ℤ pos 0 ≤ℤ b -ℤ a +ℤ o
payout l b a o h p = omega int_laws

module _ (tok : Token) (env : Env) where
  pub record IsSound (s : State tok.Ledger) : Type 0 where
    pub stored : (k : ℕ) (x : Escrow) → s.escrows k ≡ some x → IsStored s k x
    pub solvent :
        (t : Address)
        → s.token ≡ some t
        → locked s.escrows (counter s) ≤ℤ tok.balance t env.contract s.ledger

  -- The balance of the contract after it pays out.
  paid_balance :
      MovesFunds tok
      → (t payee : Address) (x : ℤ) (l l' : tok.Ledger)
      → tok.transfer t env.contract payee x l ≡ some l'
      → tok.balance t env.contract l'
        ≡ tok.balance t env.contract l -ℤ x +ℤ at_address payee env.contract x
  paid_balance moves t payee x l l' e =
      let h = moves t env.contract payee x l l' e t env.contract in
      rw (==_self t, ==_self env.contract) at h

  -- The state that a settlement leaves.
  abbrev pub settled_state :
      State tok.Ledger → tok.Ledger → ℕ → Escrow → EscrowStatus → State tok.Ledger
  settled_state s l' k x status = record s {
    ledger = l';
    escrows = insert k (record x { status = status }) s.escrows;
  }

  -- A settlement that succeeds has paid out and stored the settled record, and nothing else.
  pub settle_ok :
      (s s' : State tok.Ledger) (token : Address) (k : ℕ) (x : Escrow) (payee : Address)
      (status : EscrowStatus)
      → settle tok env token k x payee status s ≡ ok s'
      → (l' : tok.Ledger) × (tok.transfer token env.contract payee x.amount s.ledger ≡ some l')
        × (s' ≡ settled_state s l' k x status)
  unfolding settle transfer_token
  settle_ok s s' token k x payee status h = ground arith

  settled-IsStored :
      (s : State tok.Ledger) (l' : tok.Ledger) (k : ℕ) (x : Escrow) (status : EscrowStatus)
      → IsSound s
      → s.escrows k ≡ some x
      → (j : ℕ) (y : Escrow) → (settled_state s l' k x status).escrows j ≡ some y
      → IsStored (settled_state s l' k x status) j y
  settled-IsStored s l' k x status sound e j y h = elim (ℕ_discrete k j) [
    | yes same ↦ ground (arith, sound.stored k x e)
    | no other ↦ ground (arith, sound.stored j y)
  ]

  settled-solvent :
      MovesFunds tok
      → (s : State tok.Ledger) (l' : tok.Ledger) (k : ℕ) (x : Escrow) (t payee : Address)
        (status : EscrowStatus)
      → IsSound s
      → s.escrows k ≡ some x
      → is_active x.status ≡ true
      → is_active status ≡ false
      → s.token ≡ some t
      → tok.transfer t env.contract payee x.amount s.ledger ≡ some l'
      → locked (settled_state s l' k x status).escrows (counter s) ≤ℤ tok.balance t env.contract l'
  settled-solvent moves s l' k x t payee status sound e live done et moved =
      let facts = sound.stored k x e in
      let paid = paid_balance moves t payee x.amount s.ledger l' moved in
      let sum =
        locked-insert s.escrows k (record x { status = status }) (counter s) facts.from_one
          facts.counted in
      let live_amount : active_amount (s.escrows k) ≡ x.amount = rw e (rw live) in
      let settled_amount : active_amount (some (record x { status = status })) ≡ pos 0 = rw done in
      rw (sum, paid, live_amount, settled_amount)
        (payout (locked s.escrows (counter s)) (tok.balance t env.contract s.ledger) x.amount
          (at_address payee env.contract x.amount) (sound.solvent t et)
          (at_address_nonneg payee env.contract x.amount (omega (arith, facts.positive))))

  -- Paying out an active escrow and marking it settled keeps the invariant.
  settled-IsSound :
      MovesFunds tok
      → (s : State tok.Ledger) (l' : tok.Ledger) (t : Address) (k : ℕ) (x : Escrow)
        (payee : Address) (status : EscrowStatus)
      → IsSound s
      → s.escrows k ≡ some x
      → s.token ≡ some t
      → is_active x.status ≡ true
      → is_active status ≡ false
      → tok.transfer t env.contract payee x.amount s.ledger ≡ some l'
      → IsSound (settled_state s l' k x status)
  settled-IsSound moves s l' t k x payee status sound e et live done moved = record {
    stored = settled-IsStored s l' k x status sound e;
    solvent = λ t' et'.
        let same : t' ≡ t = cc in
        rw same (settled-solvent moves s l' k x t payee status sound e live done et moved);
  }

  pub settle-IsSound :
      MovesFunds tok
      → (s s' : State tok.Ledger) (t : Address) (k : ℕ) (x : Escrow) (payee : Address)
        (status : EscrowStatus)
      → IsSound s
      → s.escrows k ≡ some x
      → s.token ≡ some t
      → is_active x.status ≡ true
      → is_active status ≡ false
      → settle tok env t k x payee status s ≡ ok s'
      → IsSound s'
  settle-IsSound moves s s' t k x payee status sound e et live done h =
      let (l', moved, after) = settle_ok s s' t k x payee status h in
      rw after (settled-IsSound moves s l' t k x payee status sound e et live done moved)

  -- A release that succeeds is authorized by its caller, who is the admin, the depositor or the
  -- arbiter of a stored and active escrow. It transfers the amount of the escrow from the contract to
  -- the recipient, stores the record as released, publishes one event, and changes nothing else.
  pub release_escrow_ok :
      (s s' : State tok.Ledger) (caller : Address) (k : ℕ)
      → release_escrow tok env caller k s ≡ ok s'
      → (x : Escrow) × (l' : tok.Ledger) × (admin : Address) × (s.escrows k ≡ some x)
        × (s.admin ≡ some admin)
        × (env.authorized caller ≡ true)
        × (x.status ≡ active)
        × IsParty x caller admin
        × (tok.transfer x.token env.contract x.recipient x.amount s.ledger ≡ some l')
        × (s'
            ≡ publish (escrow_released k x.recipient x.amount) (record s {
              ledger = l';
              escrows = insert k (record x { status = released }) s.escrows;
            }))
  unfolding release_escrow
  release_escrow_ok s s' caller k h = elim (Option-cases (s.escrows k)) [
    | inl missing ↦ absurd (ground arith)
    | inr (x, e) ↦ elim (Option-cases s.admin) [
      | inl unset ↦ absurd (ground arith)
      | inr (admin, a) ↦ elim (Result-cases (settle tok env x.token k x x.recipient released s)) [
        | inl (_, refused) ↦ absurd (ground arith)
        | inr (u, paid) ↦
            let (l', moved, after) = settle_ok s u x.token k x x.recipient released paid in
            let last : s' ≡ publish (escrow_released k x.recipient x.amount) u = ground arith in
            (
              x,
              l',
              admin,
              e,
              a,
              ground arith,
              ground arith,
              ground arith,
              moved,
              last ∙ ap (publish (escrow_released k x.recipient x.amount)) after,
            )
      ]
    ]
  ]

  pub publish-IsSound :
      (ev : EscrowEvent) (s : State tok.Ledger) → IsSound s → IsSound (publish ev s)
  publish-IsSound ev s h = record {
    stored = λ k x e.
        let r = h.stored k x e in
        record {
          own_id = r.own_id;
          from_one = r.from_one;
          counted = r.counted;
          positive = r.positive;
          own_token = r.own_token;
        };
    solvent = h.solvent;
  }

  -- A release keeps the contract solvent.
  pub release_escrow-IsSound :
      MovesFunds tok
      → (s s' : State tok.Ledger) (caller : Address) (k : ℕ) → IsSound s
      → release_escrow tok env caller k s ≡ ok s'
      → IsSound s'
  release_escrow-IsSound moves s s' caller k sound h =
      let (x, l', admin, e, _, _, live, _, paid, after) = release_escrow_ok s s' caller k h in
      rw after (
        publish-IsSound (escrow_released k x.recipient x.amount) (settled_state s l' k x released) (
          settled-IsSound moves s l' x.token k x x.recipient released sound e
            (sound.stored k x e).own_token (rw live) refl paid))
