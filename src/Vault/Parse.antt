-- ===== src/Vault/Parse.antt =====
-- `VaultTx::from_tx` (vault-indexer/src/vault/transaction.rs), in the order of the source.
use mutinynet_indexer.Common.{
  ℕ, suc, ◌%◌, ◌^◌, Bool, true, false, ◌||◌, Option, none, some, List, [], ◌∷◌, length, ◌==◌,
  if◌then◌else◌,
}
use mutinynet_indexer.Vault.Bitcoin.{
  TxOut, Transaction, Script, op_return, op_pushnum_8, op_pushbytes_14, op_pushbytes_38,
}
use mutinynet_indexer.Vault.Bytes.{next20, next_u32_be}
use mutinynet_indexer.Vault.Action
use mutinynet_indexer.Vault.Version
use mutinynet_indexer.Vault.Version.{VaultVersion, vault1, vault1_legacy}
use mutinynet_indexer.Vault.Transaction.{
  VaultTx, MissingVaultField, Result, ok, err, panic, ok_or, guard, ◌>>=◌, no_op_return,
  no_op_push8, mismatch_op_push8, no_op_pushbytes14, mismatch_op_pushbytes, missing_field,
  wrong_version, wrong_action, liquidation_hash_invalid_length,
}

-- `Iterator::next`
unfoldable pub next : List ℕ → Option (ℕ × List ℕ)
next [] = none
next (byte ∷ bytes) = some (byte, bytes)

-- `ok_or` with the error of a field, beside the bytes that are left.
abbrev pub required : MissingVaultField → Option ℕ × List ℕ → Result (ℕ × List ℕ)
required name (none, left) = err (missing_field name)
required name (some w, left) = ok (w, left)

-- `next_u32_be().ok_or(…)`
unfoldable pub field : MissingVaultField → List ℕ → Result (ℕ × List ℕ)
unfolding next_u32_be
field name bytes = required name (next_u32_be bytes)

-- The three numbers, which the two formats order differently: balance, price, timestamp.
unfoldable pub amounts : Bool → List ℕ → Result (ℕ × ℕ × ℕ × List ℕ)
unfolding field
amounts true bytes = do
  (balance, after_balance) ← field MissingVaultField.balance bytes
  (oracle_price, after_price) ← field MissingVaultField.oracle_price after_balance
  (oracle_timestamp, left) ← field MissingVaultField.oracle_timestamp after_price
  ok (balance, oracle_price, oracle_timestamp, left)
amounts false bytes = do
  (oracle_price, after_price) ← field MissingVaultField.oracle_price bytes
  (oracle_timestamp, after_timestamp) ← field MissingVaultField.oracle_timestamp after_price
  (balance, left) ← field MissingVaultField.balance after_timestamp
  ok (balance, oracle_price, oracle_timestamp, left)

-- What is left behind the price has to be nothing or a hash.
unfoldable pub remaining_hash : Option ℕ × List ℕ → Result (Option ℕ × Option (List ℕ))
unfolding next20
remaining_hash (liquidation_price, left) = do
  let bytes_left = length left
  _ ← guard (bytes_left == 0 || bytes_left == 20) (liquidation_hash_invalid_length bytes_left)
  ok (liquidation_price, (next20 left).0)

-- The price and the hash at the end, both of which may be missing.
unfoldable pub liquidation : List ℕ → Result (Option ℕ × Option (List ℕ))
unfolding next_u32_be remaining_hash
liquidation bytes = remaining_hash (next_u32_be bytes)

unfoldable pub known_version : VaultVersion → Bool → VaultVersion
known_version vault1 false = vault1_legacy
known_version version _ = version

-- What follows the three opcodes.
unfoldable pub parse_payload : ℕ → ℕ → Bool → List ℕ → Result VaultTx
unfolding next amounts liquidation
parse_payload txid output is_new_format bytes = do
  (version_code, after_version) ← ok_or (next bytes) (missing_field MissingVaultField.version)
  version ← ok_or (Version.from_protocol version_code) (wrong_version version_code)
  (action_code, after_action) ← ok_or (next after_version) (missing_field MissingVaultField.action)
  action ← ok_or (Action.from_protocol action_code) (wrong_action action_code)
  (balance, oracle_price, oracle_timestamp, left) ← amounts is_new_format after_action
  (liquidation_price, liquidation_hash) ← liquidation left
  ok (record {
    txid = txid;
    output = output % 2 ^ 32;
    version = known_version version is_new_format;
    action = action;
    balance = balance;
    oracle_price = oracle_price;
    oracle_timestamp = oracle_timestamp;
    liquidation_price = liquidation_price;
    liquidation_hash = liquidation_hash;
  })

abbrev started : Result (Unit {0})
started = ok tt

-- A script that the test takes for an OP_RETURN output.
unfoldable pub parse_script : ℕ → ℕ → List ℕ → Result VaultTx
unfolding next parse_payload
parse_script txid output script = do
  (first, after_first) ← ok_or (next script) no_op_return
  _ ← elim (first == op_return) [ true ↦ started | false ↦ panic ]
  (pushnum, after_pushnum) ← ok_or (next after_first) no_op_push8
  _ ← guard (pushnum == op_pushnum_8) (mismatch_op_push8 pushnum)
  (pushbytes, payload) ← ok_or (next after_pushnum) no_op_pushbytes14
  _ ←
      guard (pushbytes == op_pushbytes_14 || pushbytes == op_pushbytes_38)
        (mismatch_op_pushbytes pushbytes)
  parse_payload txid output (pushbytes == op_pushbytes_38) payload

module _ ⦃c : Script⦄ where
  -- The first OP_RETURN output and its position, counted from `i`.
  unfoldable pub find_op_return : ℕ → List TxOut → Option (ℕ × List ℕ)
  find_op_return i [] = none
  find_op_return i (out ∷ outs) =
      let rest = find_op_return (suc i) outs in
      if c.is_op_return out.script_pubkey then some (i, out.script_pubkey) else rest

  unfoldable pub from_tx : Transaction → Result VaultTx
  unfolding find_op_return parse_script
  from_tx tx = do
    (output, script) ← ok_or (find_op_return 0 tx.output) no_op_return
    parse_script tx.txid output script
