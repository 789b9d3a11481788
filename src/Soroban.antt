-- ===== src/Soroban.antt =====
-- The Soroban host as the contracts see it: the ledger values, authorizations, failures, which undo
-- all that a call wrote, and the token contract, which is a parameter.
pub mod Transfers
pub mod SimpleToken
use stellarspend_contracts.Common.{
  ℕ, ◌/◌, ◌≡◌, refl, ◌⊎◌, inl, inr, Bool, true, false, Option, none, some, ◌==◌, if◌then◌else◌,
}
use stellarspend_contracts.Common.Int.{
  ℤ, pos, ◌+ℤ◌, ◌-ℤ◌, ◌≤ℤ◌, checked_add_u64, checked_mul, checked_mul_u64, checked_add_u32,
}

-- Addresses and symbols are only compared, so numbers name them.
abbrev pub Address : Type 0
Address = ℕ

abbrev pub Symbol : Type 0
Symbol = ℕ

-- What `env` tells a call: the ledger's time and sequence number, the contract's own address, and
-- the addresses that authorized the call.
pub record Env : Type 0 where
  pub timestamp : ℕ
  pub sequence : ℕ
  pub contract : Address
  pub authorized : Address → Bool

-- How a call fails: `panic_with_error!` with an error of the contract, `panic!` or `expect`, an
-- arithmetic overflow (the release profile has overflow checks on), an authorization that is
-- missing, or a failure of the token contract.
pub data Fault (E : Type 0) : Type 0 where
  contract_error : E → Fault E
  panicked : Fault E
  overflowed : Fault E
  not_authorized : Fault E
  token_failed : Fault E

pub data Result (E A : Type 0) : Type 0 where
  ok : A → Result E A
  err : Fault E → Result E A

-- A call takes the contract's state and returns the new one with its value. A call that fails
-- returns no state: the host keeps the one from before.
infixl 5 ◌>>=◌ ◌>>◌
abbrev pub ◌>>=◌ : {E A B : Type 0} → Result E A → (A → Result E B) → Result E B
ok a >>= f = f a
err x >>= f = err x

abbrev pub ◌>>◌ : {E B : Type 0} → Result E (Unit {0}) → Result E B → Result E B
m >> k = m >>= λ _. k

module _ {E : Type 0} where
  -- `if c { panic_with_error!(x) }`
  abbrev pub throw_if : Bool → Fault E → Result E (Unit {0})
  throw_if true x = err x
  throw_if false x = ok tt

  -- `unwrap_or_else(|| panic_with_error!(x))`
  abbrev pub or_throw : {A : Type 0} → Option A → Fault E → Result E A
  or_throw none x = err x
  or_throw (some a) x = ok a

  -- `address.require_auth()`
  abbrev pub require_auth : Env → Address → Result E (Unit {0})
  require_auth env a = if env.authorized a then ok tt else err not_authorized

  -- `a + b` on `u64`, with overflow checks.
  abbrev pub add_u64 : ℕ → ℕ → Result E ℕ
  add_u64 a b = or_throw (checked_add_u64 a b) overflowed

  -- `a * b` on `u64`, and `a + b` on `u32`.
  abbrev pub mul_u64 : ℕ → ℕ → Result E ℕ
  mul_u64 a b = or_throw (checked_mul_u64 a b) overflowed

  abbrev pub add_u32 : ℕ → ℕ → Result E ℕ
  add_u32 a b = or_throw (checked_add_u32 a b) overflowed

  -- `a / b` on unsigned integers, which panics on a division by zero.
  abbrev pub div_u64 : ℕ → ℕ → Result E ℕ
  div_u64 a b = if b == 0 then err panicked else ok (a / b)

  -- `a * b` on `i128`, with overflow checks.
  abbrev pub mul_i128 : ℤ → ℤ → Result E ℤ
  mul_i128 a b = or_throw (checked_mul a b) overflowed

-- Token contracts: their ledger, and the calls that the contracts make. `none` is a failed call,
-- which fails its caller.
pub record Token : Type 1 where
  pub Ledger : Type 0
  pub balance : (token holder : Address) → Ledger → ℤ
  pub transfer : (token from to : Address) → ℤ → Ledger → Option Ledger
  pub burn : (token from : Address) → ℤ → Ledger → Option Ledger

-- `x` where the address is the one that is asked about, and 0 elsewhere.
abbrev pub at_address : Address → Address → ℤ → ℤ
at_address a b x = if a == b then x else pos 0

-- The documented behaviour of a transfer in the token standard: the amount leaves one balance and
-- joins another, in that token alone.
abbrev pub MovesFunds : Token → Type 0
MovesFunds tok =
    (token from to : Address) (x : ℤ) (l l' : tok.Ledger)
    → tok.transfer token from to x l ≡ some l'
    → (k a : Address)
    → tok.balance k a l' ≡ (
        if k == token
        then tok.balance k a l -ℤ at_address from a x +ℤ at_address to a x
        else tok.balance k a l)

-- The token standard refuses a transfer of a positive amount only if the sender does not have it.
abbrev pub PaysCovered : Token → Type 0
PaysCovered tok =
    (token from to : Address) (x : ℤ) (l : tok.Ledger)
    → pos 1 ≤ℤ x
    → x ≤ℤ tok.balance token from l
    → (l' : tok.Ledger) × (tok.transfer token from to x l ≡ some l')

-- A sequence that succeeds has a first call that succeeds, and then a second one.
pub >>=-succeeds :
    {E A B : Type 0} (call : Result E A) (rest : A → Result E B) {last : B}
    → (call >>= rest) ≡ ok last
    → (mid : A) × (call ≡ ok mid) × (rest mid ≡ ok last)
>>=-succeeds (err fault) rest done = cc
>>=-succeeds (ok mid) rest done = (mid, refl, done)

-- To split on a computed result and keep the equation.
pub Result-cases :
    {E A : Type 0} (r : Result E A) → ((x : Fault E) × (r ≡ err x)) ⊎ ((a : A) × (r ≡ ok a))
Result-cases (ok a) = inr (a, refl)
Result-cases (err x) = inl (x, refl)

-- The value of a call that succeeds.
abbrev pub ok_or : {E A : Type 0} → Result E A → A → A
ok_or (ok a) d = a
ok_or (err x) d = d

-- What holds before a call that may fail, and after it if it succeeds, holds of what is left.
pub ok_or-keeps :
    {E A : Type 0} (P : A → Type 0) (r : Result E A) (d : A)
    → P d
    → ((a : A) → r ≡ ok a → P a)
    → P (ok_or r d)
ok_or-keeps P (ok a) d old new = new a refl
ok_or-keeps P (err x) d old new = old
