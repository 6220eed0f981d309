-- ===== src/Vault/Runes.antt =====
-- Transfers of the UNIT rune (vault-indexer/src/vault/runes.rs).
use mutinynet_indexer.Common.{
  ℕ, ◌+◌, ◌%◌, ◌^◌, Bool, true, false, ◌&&◌, Option, none, some, List, [], ◌∷◌, ◌==◌, if◌then◌else◌,
}
use mutinynet_indexer.Vault.Bitcoin.{Transaction}

pub record RuneId : Type 0 where
  pub block : ℕ
  pub tx : ℕ

pub record Edict : Type 0 where
  pub id : RuneId
  pub amount : ℕ

-- What `Runestone::decipher` of the `ordinals` crate makes of a transaction. Of a runestone only
-- the edicts are read, of a cenotaph nothing.
pub data Artifact : Type 0 where
  runestone : List Edict → Artifact
  cenotaph : Artifact

pub record Ordinals : Type 0 where
  pub decipher : Transaction → Option Artifact

pub record UnitTransaction : Type 0 where
  pub txid : ℕ
  pub unit_amount : ℕ

pub data Error : Type 0 where
  not_rune_tx : ℕ → Error
  is_cenotaph : ℕ → Error
  dont_have_unit_rune : ℕ → Error

unfoldable pub is_definetely_not_unit : Error → Bool
is_definetely_not_unit (not_rune_tx _) = true
is_definetely_not_unit _ = false

-- The sum is one of `u128`, which a release build wraps.
pub data Result {ℓ} (A : Type ℓ) : Type ℓ where
  ok : A → Result A
  err : Error → Result A

abbrev pub unit_rune_id : RuneId
unit_rune_id = record { block = 1527352; tx = 1 }

abbrev pub is_unit : RuneId → Bool
is_unit id = (id.block == unit_rune_id.block) && (id.tx == unit_rune_id.tx)

-- The loop over the edicts: the sum so far, and whether one was met.
unfoldable pub sum_edicts : List Edict → ℕ → Bool → ℕ × Bool
sum_edicts [] unit_amount units_encoutered = (unit_amount, units_encoutered)
sum_edicts (edict ∷ edicts) unit_amount units_encoutered =
    if is_unit edict.id
    then sum_edicts edicts ((unit_amount + edict.amount) % 2 ^ 128) true
    else sum_edicts edicts unit_amount units_encoutered

module _ ⦃o : Ordinals⦄ where
  unfoldable pub from_tx : Transaction → Result UnitTransaction
  unfolding sum_edicts
  from_tx tx = elim (o.decipher tx) [
    | none ↦ err (not_rune_tx tx.txid)
    | some artifact ↦ elim artifact [
      | cenotaph ↦ err (is_cenotaph tx.txid)
      | runestone edicts ↦
          (let (unit_amount, units_encoutered) = sum_edicts edicts 0 false in
            if units_encoutered
            then ok (record { txid = tx.txid; unit_amount = unit_amount % 2 ^ 32 })
            else err (dont_have_unit_rune tx.txid))
    ]
  ]
