-- ===== src/Soroban/SimpleToken.antt =====
-- A token contract that keeps a table of balances and refuses what is not covered: it shows that the
-- laws that are assumed of tokens can hold, and the examples run on it.
use stellarspend_contracts.Common.{
  arith, ◌≡◌, Option, none, some, Bool, true, false, ◌&&◌, ◌==◌, if◌then◌else◌, ap, sym,
}
use stellarspend_contracts.Common.Int.{ℤ, pos, ◌+ℤ◌, ◌-ℤ◌, leb_ℤ}
use stellarspend_contracts.Soroban.{Address, Token, MovesFunds, PaysCovered, at_address}

abbrev pub Table : Type 0
Table = Address → Address → ℤ

abbrev pub moved : (token from to : Address) → ℤ → Table → Table
moved token from to x l k a =
    if k == token then l k a -ℤ at_address from a x +ℤ at_address to a x else l k a

unfoldable pub transfer : (token from to : Address) → ℤ → Table → Option Table
transfer token from to x l =
    if leb_ℤ (pos 0) x && leb_ℤ x (l token from) then some (moved token from to x l) else none

unfoldable pub burn : (token from : Address) → ℤ → Table → Option Table
burn token from x l =
    if leb_ℤ (pos 0) x && leb_ℤ x (l token from)
    then some (λ k a. if k == token then l k a -ℤ at_address from a x else l k a)
    else none

abbrev pub simple_token : Token
simple_token = record { Ledger = Table; balance = λ k a l. l k a; transfer = transfer; burn = burn }

some_eq : {A : Type 0} (c : Bool) (a b : A) → (if c then some a else none) ≡ some b → a ≡ b
some_eq true a b h = cc
some_eq false a b h = cc

pub simple_token-MovesFunds : MovesFunds simple_token
unfolding transfer
simple_token-MovesFunds token from to x l l' e k a =
    let same : moved token from to x l ≡ l' =
      some_eq (leb_ℤ (pos 0) x && leb_ℤ x (l token from)) (moved token from to x l) l' e in
    ap (λ (t : Table). t k a) (sym same)

pub simple_token-PaysCovered : PaysCovered simple_token
unfolding transfer
simple_token-PaysCovered token from to x l positive covered =
    (moved token from to x l, ground arith)
