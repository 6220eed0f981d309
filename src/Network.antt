-- ===== src/Network.antt =====
-- The networks (vault-indexer/src/indexer/network.rs).
pub mod Names
use mutinynet_indexer.Common.{ℕ, Bool, List, [], ◌∷◌, ◌==◌}

pub data Network : Type 0 where
  bitcoin testnet testnet4 signet mutinynet regtest : Network

-- The derived equality: the constructors are told apart by their places.
abbrev pub discriminant : Network → ℕ
discriminant bitcoin = 0
discriminant testnet = 1
discriminant testnet4 = 2
discriminant signet = 3
discriminant mutinynet = 4
discriminant regtest = 5

abbrev pub is_same : Network → Network → Bool
is_same a b = discriminant a == discriminant b

-- The magic bytes of the networks of the `bitcoin` crate.
pub record MagicBytes : Type 0 where
  pub of_crate : Network → List ℕ

unfoldable pub magic : ⦃k : MagicBytes⦄ → Network → List ℕ
magic mutinynet = 165 ∷ 223 ∷ 45 ∷ 203 ∷ []
magic ⦃k⦄ network = k.of_crate network
