-- ===== src/Vault/Bitcoin.antt =====
-- What the vault modules read of a transaction of the `bitcoin` crate.
use mutinynet_indexer.Common.{ℕ, ◌≡◌, ◌↔◌, Bool, true, List, ◌∷◌}

-- `script_pubkey` is the list of the bytes of the script.
pub record TxOut : Type 0 where
  pub value : ℕ
  pub script_pubkey : List ℕ

-- The transaction that `previous_output` names.
pub record TxIn : Type 0 where
  pub previous_txid : ℕ

-- `txid` is what `compute_txid` returns.
pub record Transaction : Type 0 where
  pub txid : ℕ
  pub input : List TxIn
  pub output : List TxOut

abbrev pub op_return : ℕ
op_return = 106

abbrev pub op_pushnum_8 : ℕ
op_pushnum_8 = 88

abbrev pub op_pushbytes_14 : ℕ
op_pushbytes_14 = 14

abbrev pub op_pushbytes_38 : ℕ
op_pushbytes_38 = 38

-- The test of the crate, which is documented to look for scripts that begin with OP_RETURN.
pub record Script : Type 0 where
  pub is_op_return : List ℕ → Bool
  pub is_op_return_iff :
      (s : List ℕ) → (is_op_return s ≡ true) ↔ ((rest : List ℕ) × (s ≡ op_return ∷ rest))
