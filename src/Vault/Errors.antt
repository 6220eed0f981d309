-- ===== src/Vault/Errors.antt =====
-- The errors of `VaultTx::from_tx` (vault-indexer/src/vault/transaction.rs): which of them say
-- that a transaction is no vault transaction at all.
use mathlib.Core.Path.{subst}
use mutinynet_indexer.Common.{
  ℕ, suc, ◌≡◌, refl, sym, ap, Bool, true, false, ◌||◌, ◌↔◌, Option, none, some, inl, inr, List, [],
  ◌∷◌, ◌==◌, ==_iff, Bool-cases, arith,
}
use mutinynet_indexer.Vault.Action
use mutinynet_indexer.Vault.Version
use mutinynet_indexer.Vault.Bitcoin.{TxOut, Transaction, Script, op_pushbytes_14, op_pushbytes_38}
use mutinynet_indexer.Vault.Bytes.{next_u32_be}
use mutinynet_indexer.Vault.Transaction.{
  VaultTx, VaultParseError, MissingVaultField, is_definetely_not_vault, Result, ok, err, panic,
  ◌>>=◌, guard, ok_or, no_op_return, missing_field, wrong_version, wrong_action,
  mismatch_op_pushbytes,
}
use mutinynet_indexer.Vault.Parse.{
  required, field, amounts, remaining_hash, liquidation, next, parse_payload, parse_script,
  find_op_return, from_tx,
}

-- No panic, and every error is one that leaves open whether it is a vault transaction.
unfoldable IsDoubtful : {A : Type 0} → Result A → Type 0
IsDoubtful (ok a) = Unit {0}
IsDoubtful (err e) = is_definetely_not_vault e ≡ false
IsDoubtful panic = ⊥

ok-IsDoubtful : {A : Type 0} (a : A) → IsDoubtful (ok a)
unfolding IsDoubtful
ok-IsDoubtful a = tt

>>=-IsDoubtful :
    {A B : Type 0} (m : Result A) (f : A → Result B)
    → IsDoubtful m
    → ((a : A) → IsDoubtful (f a))
    → IsDoubtful (m >>= f)
unfolding IsDoubtful
>>=-IsDoubtful (ok a) f m-holds f-holds = f-holds a
>>=-IsDoubtful (err e) f m-holds f-holds = m-holds
>>=-IsDoubtful panic f m-holds f-holds = m-holds

ok_or-IsDoubtful :
    {A : Type 0} (o : Option A) (e : VaultParseError)
    → is_definetely_not_vault e ≡ false
    → IsDoubtful (ok_or o e)
unfolding IsDoubtful
ok_or-IsDoubtful none e h = h
ok_or-IsDoubtful (some a) e h = tt

guard-IsDoubtful :
    (t : Bool) (e : VaultParseError) → is_definetely_not_vault e ≡ false → IsDoubtful (guard t e)
unfolding IsDoubtful
guard-IsDoubtful true e h = tt
guard-IsDoubtful false e h = h

required-IsDoubtful :
    (name : MissingVaultField) (r : Option ℕ × List ℕ) → IsDoubtful (required name r)
unfolding is_definetely_not_vault IsDoubtful
required-IsDoubtful name (none, left) = refl
required-IsDoubtful name (some w, left) = tt

field-IsDoubtful : (name : MissingVaultField) (bytes : List ℕ) → IsDoubtful (field name bytes)
unfolding field
field-IsDoubtful name bytes = required-IsDoubtful name (next_u32_be bytes)

amounts-IsDoubtful : (t : Bool) (bytes : List ℕ) → IsDoubtful (amounts t bytes)
unfolding amounts
amounts-IsDoubtful true bytes = >>=-IsDoubtful _ _ (field-IsDoubtful _ bytes) (λ p.
    >>=-IsDoubtful _ _ (field-IsDoubtful _ p.1)
      (λ q. >>=-IsDoubtful _ _ (field-IsDoubtful _ q.1) (λ r. ok-IsDoubtful _)))
amounts-IsDoubtful false bytes = >>=-IsDoubtful _ _ (field-IsDoubtful _ bytes) (λ p.
    >>=-IsDoubtful _ _ (field-IsDoubtful _ p.1)
      (λ q. >>=-IsDoubtful _ _ (field-IsDoubtful _ q.1) (λ r. ok-IsDoubtful _)))

liquidation-IsDoubtful : (bytes : List ℕ) → IsDoubtful (liquidation bytes)
unfolding liquidation remaining_hash is_definetely_not_vault
liquidation-IsDoubtful bytes = >>=-IsDoubtful _ _ (guard-IsDoubtful _ _ refl) (λ u. ok-IsDoubtful _)

parse_payload-IsDoubtful :
    (txid output : ℕ) (t : Bool) (bytes : List ℕ) → IsDoubtful (parse_payload txid output t bytes)
unfolding parse_payload is_definetely_not_vault
parse_payload-IsDoubtful txid output t bytes =
    >>=-IsDoubtful _ _
      (ok_or-IsDoubtful (next bytes) (missing_field MissingVaultField.version) refl)
      (λ p.
        >>=-IsDoubtful _ _ (ok_or-IsDoubtful (Version.from_protocol p.0) (wrong_version p.0) refl)
          (λ v.
            >>=-IsDoubtful _ _
              (ok_or-IsDoubtful (next p.1) (missing_field MissingVaultField.action) refl)
              (λ q.
                >>=-IsDoubtful _ _
                  (ok_or-IsDoubtful (Action.from_protocol q.0) (wrong_action q.0) refl)
                  (λ w. >>=-IsDoubtful _ _ (amounts-IsDoubtful t q.1) (λ r.
                    >>=-IsDoubtful _ _ (liquidation-IsDoubtful r.3) (λ l. ok-IsDoubtful _))))))

-- The script begins with OP_RETURN, OP_PUSHNUM_8 and one opcode more.
abbrev pub HasVaultOpcodes : List ℕ → Type 0
HasVaultOpcodes script =
    (pushbytes : ℕ) × (payload : List ℕ) × (script ≡ 106 ∷ 88 ∷ pushbytes ∷ payload)

-- What is asked of the parser on a script.
abbrev pub IsClassified : List ℕ → Result VaultTx → Type 0
IsClassified script (ok v) = HasVaultOpcodes script
IsClassified script (err e) = (is_definetely_not_vault e ≡ false) ↔ HasVaultOpcodes script
IsClassified script panic = ⊥

IsDoubtful-IsClassified :
    (script : List ℕ) (r : Result VaultTx)
    → HasVaultOpcodes script
    → IsDoubtful r
    → IsClassified script r
unfolding IsDoubtful
IsDoubtful-IsClassified script (ok v) has h = has
IsDoubtful-IsClassified script (err e) has h = ((λ _. has), (λ _. h))
IsDoubtful-IsClassified script panic has h = h

second : {a b c d : ℕ} {xs ys : List ℕ} → (a ∷ b ∷ xs) ≡ (c ∷ d ∷ ys) → b ≡ d
second e = cc

-- A failed test ends the parse; a test that succeeds leaves it to what follows.
guard-IsClassified :
    (script : List ℕ) (t : Bool) (e : VaultParseError) (rest : Result VaultTx)
    → (t ≡ false → (is_definetely_not_vault e ≡ false) ↔ HasVaultOpcodes script)
    → (t ≡ true → IsClassified script rest)
    → IsClassified script (guard t e >>= (λ _. rest))
guard-IsClassified script true e rest failed held = held refl
guard-IsClassified script false e rest failed held = failed refl

parse_script-IsClassified :
    (txid output : ℕ) (rest : List ℕ)
    → IsClassified (106 ∷ rest) (parse_script txid output (106 ∷ rest))
unfolding parse_script next is_definetely_not_vault
parse_script-IsClassified txid output [] = ((λ e. cc), (λ h. cc h.2))
parse_script-IsClassified txid output (pushnum ∷ []) =
    guard-IsClassified (106 ∷ pushnum ∷ []) (pushnum == 88) _ _ (λ _. ((λ e. cc), (λ h. cc h.2)))
      (λ _. ((λ e. cc), (λ h. cc h.2)))
parse_script-IsClassified txid output (pushnum ∷ pushbytes ∷ payload) =
    guard-IsClassified (106 ∷ pushnum ∷ pushbytes ∷ payload) (pushnum == 88) _ _
      (λ off. ((λ e. cc), (λ h. absurd (ground (arith, off, second h.2)))))
      (λ on.
        let has : HasVaultOpcodes (106 ∷ pushnum ∷ pushbytes ∷ payload) = (
          pushbytes,
          payload,
          ap (λ n. 106 ∷ n ∷ pushbytes ∷ payload) ((==_iff pushnum 88).0 on),
        ) in
        guard-IsClassified (106 ∷ pushnum ∷ pushbytes ∷ payload)
          (pushbytes == op_pushbytes_14 || pushbytes == op_pushbytes_38)
          (mismatch_op_pushbytes pushbytes)
          (parse_payload txid output (pushbytes == op_pushbytes_38) payload)
          (λ _. ((λ _. has), (λ _. refl)))
          (λ _.
            IsDoubtful-IsClassified _ _ has
              (parse_payload-IsDoubtful txid output (pushbytes == op_pushbytes_38) payload)))

module _ ⦃c : Script⦄ where
  -- There is an OP_RETURN output, and the script of the first one begins with the three opcodes.
  unfoldable pub HasVaultOutput : List TxOut → Type 0
  HasVaultOutput [] = ⊥
  HasVaultOutput (out ∷ outs) = elim (c.is_op_return out.script_pubkey) [
    | true ↦ HasVaultOpcodes out.script_pubkey
    | false ↦ HasVaultOutput outs
  ]

  -- What is asked of the parser on the outputs.
  abbrev pub IsClassifiedTx : List TxOut → Result VaultTx → Type 0
  IsClassifiedTx outs (ok v) = HasVaultOutput outs
  IsClassifiedTx outs (err e) = (is_definetely_not_vault e ≡ false) ↔ HasVaultOutput outs
  IsClassifiedTx outs panic = ⊥

  abbrev parse_found : ℕ → ℕ → List TxOut → Result VaultTx
  parse_found txid i outs =
      ok_or (find_op_return i outs) no_op_return
      >>= (λ (found : ℕ × List ℕ). parse_script txid found.0 found.1)

  IsClassified-IsClassifiedTx :
      (out : TxOut) (outs : List TxOut) (r : Result VaultTx)
      → c.is_op_return out.script_pubkey ≡ true
      → IsClassified out.script_pubkey r
      → IsClassifiedTx (out ∷ outs) r
  unfolding HasVaultOutput
  IsClassified-IsClassifiedTx out outs (ok v) found h = rw (HasVaultOutput, found) h
  IsClassified-IsClassifiedTx out outs (err e) found h = rw (HasVaultOutput, found) h
  IsClassified-IsClassifiedTx out outs panic found h = h

  passed-IsClassifiedTx :
      (out : TxOut) (outs : List TxOut) (r : Result VaultTx)
      → c.is_op_return out.script_pubkey ≡ false
      → IsClassifiedTx outs r
      → IsClassifiedTx (out ∷ outs) r
  unfolding HasVaultOutput
  passed-IsClassifiedTx out outs (ok v) other h = rw (HasVaultOutput, other) h
  passed-IsClassifiedTx out outs (err e) other h = rw (HasVaultOutput, other) h
  passed-IsClassifiedTx out outs panic other h = h

  parse_found-IsClassifiedTx :
      (txid i : ℕ) (outs : List TxOut) → IsClassifiedTx outs (parse_found txid i outs)
  unfolding find_op_return is_definetely_not_vault HasVaultOutput
  parse_found-IsClassifiedTx txid i [] = ((λ e. cc), (λ h. absurd h))
  parse_found-IsClassifiedTx txid i (out ∷ outs) =
      elim (Bool-cases (c.is_op_return out.script_pubkey)) [
        | inl yes_it ↦
            (let (rest, begins) = (c.is_op_return_iff out.script_pubkey).0 yes_it in
              let run : parse_found txid i (out ∷ outs) ≡ parse_script txid i out.script_pubkey =
                rw yes_it refl in
              subst (IsClassifiedTx (out ∷ outs)) (sym run) (
                IsClassified-IsClassifiedTx out outs _ yes_it
                  (rw begins (parse_script-IsClassified txid i rest))))
        | inr no_it ↦
            (let run : parse_found txid i (out ∷ outs) ≡ parse_found txid (suc i) outs =
                rw no_it refl in
              subst (IsClassifiedTx (out ∷ outs)) (sym run) (
                passed-IsClassifiedTx out outs _ no_it
                  (parse_found-IsClassifiedTx txid (suc i) outs)))
      ]

  -- On any transaction the parser does not panic. It succeeds only if there is an OP_RETURN output
  -- and the script of the first one begins with OP_RETURN, OP_PUSHNUM_8 and a further opcode; and
  -- when it fails, its error counts as "definitely not a vault" exactly if that is not so.
  pub from_tx-IsClassified : (tx : Transaction) → IsClassifiedTx tx.output (from_tx tx)
  unfolding from_tx
  from_tx-IsClassified tx = parse_found-IsClassifiedTx tx.txid 0 tx.output
