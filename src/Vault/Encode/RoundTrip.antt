-- ===== src/Vault/Encode/RoundTrip.antt =====
-- What is laid out as a vault transaction is parsed as that transaction.
use mutinynet_indexer.Common.{
  ℕ, suc, ◌+◌, ◌%◌, ◌^◌, ◌<◌, ◌≡◌, refl, sym, ap, ◌∙◌, Bool, true, false, Option, none, some, List,
  [], ◌∷◌, ◌++◌, length, arith,
}
use mutinynet_indexer.Vault.Bitcoin.{TxOut, Transaction, Script}
use mutinynet_indexer.Vault.Action
use mutinynet_indexer.Vault.Action.{VaultAction}
use mutinynet_indexer.Vault.Version
use mutinynet_indexer.Vault.Version.{VaultVersion, vault1, vault1_legacy}
use mutinynet_indexer.Vault.Bytes.{
  to_be_bytes, next20, next_bytes, next_bytes-all, next_u32_be-to_be_bytes,
}
use mutinynet_indexer.Vault.Transaction.{VaultTx, ok, MissingVaultField}
use mutinynet_indexer.Vault.Parse.{
  field, amounts, liquidation, remaining_hash, parse_payload, parse_script, known_version, next,
  find_op_return, from_tx,
}
use mutinynet_indexer.Vault.Encode.{
  encode, number_bytes, push_opcode, price_bytes, hash_bytes, IsLaidOut,
}

field-to_be_bytes :
    (name : MissingVaultField) (w : ℕ) (rest : List ℕ)
    → field name (to_be_bytes w ++ rest) ≡ ok (w, rest)
unfolding field
field-to_be_bytes name w rest = rw (next_u32_be-to_be_bytes w rest) refl

abbrev is_new : VaultVersion → Bool
is_new vault1 = true
is_new vault1_legacy = false

amounts-number_bytes :
    (version : VaultVersion) (balance price timestamp : ℕ) (rest : List ℕ)
    → amounts (is_new version) (number_bytes version balance price timestamp rest)
      ≡ ok (balance, price, timestamp, rest)
unfolding amounts number_bytes
amounts-number_bytes vault1 balance price timestamp rest =
    rw (field-to_be_bytes _ balance, field-to_be_bytes _ price, field-to_be_bytes _ timestamp) refl
amounts-number_bytes vault1_legacy balance price timestamp rest =
    rw (field-to_be_bytes _ price, field-to_be_bytes _ timestamp, field-to_be_bytes _ balance) refl

remaining-nothing : (p : Option ℕ) → remaining_hash (p, []) ≡ ok (p, none)
unfolding remaining_hash next20 next_bytes
remaining-nothing p = refl

remaining-hash :
    (p : Option ℕ) (hash : List ℕ) → length hash ≡ 20 → remaining_hash (p, hash) ≡ ok (p, some hash)
unfolding remaining_hash next20
remaining-hash p hash h = rw h (ap (λ r. ok (p, r.0)) (next_bytes-all 20 hash h))

liquidation-tail :
    (price : Option ℕ) (hash : Option (List ℕ))
    → IsLaidOut price hash
    → liquidation (price_bytes price ++ hash_bytes hash) ≡ ok (price, hash)
unfolding liquidation price_bytes hash_bytes next_bytes
liquidation-tail none none h = refl
liquidation-tail none (some hash) h = absurd h
liquidation-tail (some price) none h =
    rw (next_u32_be-to_be_bytes price []) (remaining-nothing (some price))
liquidation-tail (some price) (some hash) h =
    rw (next_u32_be-to_be_bytes price hash) (remaining-hash (some price) hash h)

known_version-is_new : (version : VaultVersion) → known_version vault1 (is_new version) ≡ version
unfolding known_version
known_version-is_new vault1 = refl
known_version-is_new vault1_legacy = refl

-- The parser, given what its stages return.
parse_payload-stages :
    (txid output : ℕ) (version : VaultVersion) (action : VaultAction) (bytes left : List ℕ)
    (balance oracle_price oracle_timestamp : ℕ) (price : Option ℕ) (hash : Option (List ℕ))
    → amounts (is_new version) bytes ≡ ok (balance, oracle_price, oracle_timestamp, left)
    → liquidation left ≡ ok (price, hash)
    → parse_payload txid output
        (is_new version)
        (Version.to_protocol version ∷ Action.to_protocol action ∷ bytes)
      ≡ ok (record {
        txid = txid;
        output = output % 2 ^ 32;
        version = version;
        action = action;
        balance = balance;
        oracle_price = oracle_price;
        oracle_timestamp = oracle_timestamp;
        liquidation_price = price;
        liquidation_hash = hash;
      })
unfolding parse_payload next Version.to_protocol Version.from_protocol
parse_payload-stages txid output vault1 action bytes left balance oracle_price oracle_timestamp
      price hash run tail =
    rw
      (
        (Action.from_protocol-to_protocol (Action.to_protocol action) action).1 refl,
        run,
        tail,
        known_version-is_new vault1,
      )
      refl
parse_payload-stages txid output vault1_legacy action bytes left balance oracle_price
      oracle_timestamp price hash run tail =
    rw
      (
        (Action.from_protocol-to_protocol (Action.to_protocol action) action).1 refl,
        run,
        tail,
        known_version-is_new vault1_legacy,
      )
      refl

parse_script-opcodes :
    (txid output : ℕ) (version : VaultVersion) (payload : List ℕ)
    → parse_script txid output (106 ∷ 88 ∷ push_opcode version ∷ payload)
      ≡ parse_payload txid output (is_new version) payload
unfolding parse_script push_opcode next
parse_script-opcodes txid output vault1 payload = refl
parse_script-opcodes txid output vault1_legacy payload = refl

zero_add : (n : ℕ) → 0 + n ≡ n
zero_add n = omega arith

small : (n : ℕ) → n < 2 ^ 32 → n % 2 ^ 32 ≡ n
small n h = omega arith

parse_script-encode :
    (v : VaultTx)
    → v.output < 2 ^ 32
    → IsLaidOut v.liquidation_price v.liquidation_hash
    → parse_script v.txid v.output (encode v) ≡ ok v
unfolding encode
parse_script-encode v fits laid =
    parse_script-opcodes v.txid v.output v.version _
    ∙ parse_payload-stages v.txid v.output v.version v.action _ _ v.balance v.oracle_price
        v.oracle_timestamp v.liquidation_price v.liquidation_hash
        (amounts-number_bytes v.version v.balance v.oracle_price v.oracle_timestamp _)
        (liquidation-tail v.liquidation_price v.liquidation_hash laid)
    ∙ ap (λ o. ok (record v { output = o })) (small v.output fits)

module _ ⦃c : Script⦄ where
  -- None of the outputs is an OP_RETURN output.
  abbrev pub IsPlain : List TxOut → Type 0
  IsPlain [] = Unit {0}
  IsPlain (out ∷ outs) = (c.is_op_return out.script_pubkey ≡ false) × IsPlain outs

  find_op_return-first :
      (i : ℕ) (before : List TxOut) (out : TxOut) (after : List TxOut)
      → IsPlain before
      → c.is_op_return out.script_pubkey ≡ true
      → find_op_return i (before ++ (out ∷ after)) ≡ some (i + length before, out.script_pubkey)
  unfolding find_op_return
  find_op_return-first i [] out after plain found =
      rw found (ap (λ n. some (n, out.script_pubkey)) (omega arith))
  find_op_return-first i (o ∷ os) out after (other, plain) found = rw other (
      find_op_return-first (suc i) os out after plain found
      ∙ ap (λ n. some (n, out.script_pubkey)) (omega arith))

  -- A transaction whose first OP_RETURN output carries the encoding of a vault transaction, at the
  -- position and with the id that the vault transaction has, is parsed as that vault transaction,
  -- in the new format and in the legacy one, with or without a liquidation price and hash.
  pub from_tx-encode :
      (v : VaultTx) (tx : Transaction) (before after : List TxOut) (value : ℕ)
      → v.txid ≡ tx.txid
      → v.output ≡ length before
      → length before < 2 ^ 32
      → IsLaidOut v.liquidation_price v.liquidation_hash
      → IsPlain before
      → tx.output ≡ before ++ (record { value = value; script_pubkey = encode v } ∷ after)
      → from_tx tx ≡ ok v
  unfolding from_tx encode
  from_tx-encode v tx before after value id at fits laid plain outs =
      rw
        (
          outs,
          find_op_return-first 0 before (record { value = value; script_pubkey = encode v }) after
              plain ((c.is_op_return_iff (encode v)).1 (_, refl)),
          zero_add (length before),
          sym id,
          sym at,
        )
        (parse_script-encode v (rw at fits) laid)
