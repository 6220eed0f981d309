-- ===== src/Vault/Action.antt =====
-- `VaultAction` (vault-indexer/src/vault/transaction.rs).
use mutinynet_indexer.Common.{ℕ, ◌≡◌, ◌↔◌, Option, none, some, arith, ◌==◌, if◌then◌else◌}
use mutinynet_indexer.Common.Int.{ℤ, pos, negsuc}

-- `opening` is the source's `Open`.
pub data VaultAction : Type 0 where
  opening deposit withdraw borrow repay : VaultAction

-- The letters o, d, w, b and r.
unfoldable pub to_protocol : VaultAction → ℕ
to_protocol opening = 111
to_protocol deposit = 100
to_protocol withdraw = 119
to_protocol borrow = 98
to_protocol repay = 114

unfoldable pub from_protocol : ℕ → Option VaultAction
from_protocol v =
    if v == 111
    then some opening
    else if v == 100
    then some deposit
    else if v == 119
    then some withdraw
    else if v == 98
    then some borrow
    else if v == 114
    then some repay
    else none

unfoldable pub unit_volume_sign : VaultAction → ℤ
unit_volume_sign repay = negsuc 0
unit_volume_sign _ = pos 1

-- Which bytes stand for an action: the code of each action, and no other byte.
pub from_protocol-to_protocol :
    (code : ℕ) (action : VaultAction)
    → (from_protocol code ≡ some action) ↔ (to_protocol action ≡ code)
unfolding from_protocol to_protocol
from_protocol-to_protocol code action = ground arith
