-- ===== src/Soroban/Transfers.antt =====
-- The documented effect of a token transfer, at the two accounts that it touches and elsewhere.
use stellarspend_contracts.Common.{◌≡◌, ◌≢◌, sym, some, ◌==◌, ==_self, false, arith}
use stellarspend_contracts.Common.Int.{ℤ, pos, ◌+ℤ◌, ◌-ℤ◌, int_laws}
use stellarspend_contracts.Soroban.{Address, Token, MovesFunds}

minus_only : (b x : ℤ) → b -ℤ x +ℤ pos 0 ≡ b -ℤ x
minus_only b x = omega int_laws

plus_only : (b x : ℤ) → b -ℤ pos 0 +ℤ x ≡ b +ℤ x
plus_only b x = omega int_laws

==_ne : (a b : Address) → a ≢ b → (a == b) ≡ false
==_ne a b h = ground arith

module _ (tok : Token) (moves : MovesFunds tok) where
  -- Between two accounts the amount leaves one and joins the other.
  pub transfer_between :
      (token from to : Address) (x : ℤ) (l l' : tok.Ledger)
      → from ≢ to
      → tok.transfer token from to x l ≡ some l'
      → (tok.balance token from l' ≡ tok.balance token from l -ℤ x)
        × (tok.balance token to l' ≡ tok.balance token to l +ℤ x)
  transfer_between token from to x l l' ne e =
      let back : (to == from) ≡ false = ==_ne to from (λ p. ne (sym p)) in
      let out = moves token from to x l l' e token from in
      let in' = moves token from to x l l' e token to in
      (
        rw (out, ==_self token, ==_self from, back) (minus_only (tok.balance token from l) x),
        rw (in', ==_self token, ==_self to, ==_ne from to ne)
            (plus_only (tok.balance token to l) x),
      )
