-- ===== src/Tests/Loaders.antt =====
-- Rows that are written and read (vault-indexer/src/db/loaders.rs).
use Prim.Native.String.{String}
use mutinynet_indexer.Common.{
  ℕ, zero, suc, ◌+◌, ◌*◌, ◌/◌, ◌%◌, ◌-◌, ◌^◌, ◌<◌, ◌≡◌, refl, ap, Option, none, some, List, [], ◌∷◌,
  get_elem?, length, ltb, lt→ltb, if◌then◌else◌, arith,
}
use mutinynet_indexer.Common.Int.{ℤ, pos, negsuc}
use mutinynet_indexer.Common.Outcome.{ok, err}
use mutinynet_indexer.Db.Loaders
use mutinynet_indexer.Db.Loaders.{
  Value, null, integer, text, blob, Result, invalid_column_type, integral_value_out_of_range,
  IsSigned, RowGet, HashBytes,
}
use mutinynet_indexer.Db.Loaders.RoundTrip.{IsTyped}
use mutinynet_indexer.Db.Loaders.Readable.{
  IsTypedTx, IsTypedPlace, IsReadable, store_vault_tx-IsReadable,
}
use mutinynet_indexer.Common.Dict.{lookup}
use mutinynet_indexer.Common.Text.{Lowercase}
use mutinynet_indexer.Tests.Vault.{
  script, opening_tx, opening_raw, opening_meta, no_vaults, no_vaults-IsConsistent, open_run,
  one_vault, one_vault-IsConsistent, place, deposit_tx, deposit_raw, deposit_meta, after_deposit,
  deposit_run,
}

instance pub lowercase : Lowercase
lowercase = record { to_lowercase = λ s. s; to_lowercase_plain = λ s plain. refl }

-- A reading of `Row::get` that keeps its laws.
abbrev as_blob : ℕ → Option Value → Result (List ℕ)
as_blob index (some (blob bytes)) = ok bytes
as_blob index _ = err (invalid_column_type index)

abbrev as_option_blob : ℕ → Option Value → Result (Option (List ℕ))
as_option_blob index (some (blob bytes)) = ok (some bytes)
as_option_blob index (some null) = ok none
as_option_blob index _ = err (invalid_column_type index)

abbrev as_text : ℕ → Option Value → Result String
as_text index (some (text s)) = ok s
as_text index _ = err (invalid_column_type index)

abbrev as_unsigned : ℕ → ℕ → Option Value → Result ℕ
as_unsigned w index (some (integer (pos n))) =
    if ltb n (2 ^ w) then ok n else err (integral_value_out_of_range index)
as_unsigned w index (some (integer _)) = err (integral_value_out_of_range index)
as_unsigned w index _ = err (invalid_column_type index)

abbrev as_option_unsigned : ℕ → ℕ → Option Value → Result (Option ℕ)
as_option_unsigned w index (some null) = ok none
as_option_unsigned w index found = Loaders.map_outcome some (as_unsigned w index found)

abbrev magnitude : ℤ → ℕ
magnitude (pos n) = n
magnitude (negsuc n) = n

abbrev as_signed : ℕ → ℕ → Option Value → Result ℤ
as_signed w index (some (integer z)) =
    if ltb (magnitude z) (2 ^ (w - 1)) then ok z else err (integral_value_out_of_range index)
as_signed w index _ = err (invalid_column_type index)

as_signed-ok : (w index : ℕ) (z : ℤ) → IsSigned w z → as_signed w index (some (integer z)) ≡ ok z
as_signed-ok w index (pos n) fits = rw (lt→ltb n (2 ^ (w - 1)) fits) refl
as_signed-ok w index (negsuc n) fits = rw (lt→ltb n (2 ^ (w - 1)) fits) refl

instance pub row_get : RowGet
row_get = record {
  get_blob = λ row index. as_blob index (get_elem? row index);
  get_option_blob = λ row index. as_option_blob index (get_elem? row index);
  get_text = λ row index. as_text index (get_elem? row index);
  get_unsigned = λ w row index. as_unsigned w index (get_elem? row index);
  get_option_unsigned = λ w row index. as_option_unsigned w index (get_elem? row index);
  get_signed = λ w row index. as_signed w index (get_elem? row index);
  get_blob_lem = λ row index bytes found. ap (as_blob index) found;
  get_option_blob_some = λ row index bytes found. ap (as_option_blob index) found;
  get_option_blob_none = λ row index found. ap (as_option_blob index) found;
  get_text_lem = λ row index s found. ap (as_text index) found;
  get_unsigned_lem = λ w row index n found fits. rw found (rw (lt→ltb n (2 ^ w) fits) refl);
  get_option_unsigned_some = λ w row index n found fits. rw found (rw (lt→ltb n (2 ^ w) fits) refl);
  get_option_unsigned_none = λ w row index found. ap (as_option_unsigned w index) found;
  get_signed_lem = λ w row index z found fits. rw found (as_signed-ok w index z fits);
}

-- The digits of a number to the base 256, the lowest first.
abbrev to_digits : ℕ → ℕ → List ℕ
to_digits zero h = []
to_digits (suc n) h = h % 256 ∷ to_digits n (h / 256)

abbrev from_digits : List ℕ → ℕ
from_digits [] = 0
from_digits (digit ∷ digits) = digit + 256 * from_digits digits

to_digits-length : (n h : ℕ) → length (to_digits n h) ≡ n
to_digits-length zero h = refl
to_digits-length (suc n) h = rw (to_digits-length n (h / 256)) refl

from_digits-to_digits : (n h : ℕ) → h < 256 ^ n → from_digits (to_digits n h) ≡ h
from_digits-to_digits zero h fits = omega arith
from_digits-to_digits (suc n) h fits =
    rw (from_digits-to_digits n (h / 256) (omega arith)) (omega arith)

instance pub hash_bytes : HashBytes
hash_bytes = record {
  to_byte_array = to_digits 32;
  from_byte_array = from_digits;
  to_byte_array_length = to_digits-length 32;
  from_to_byte_array = from_digits-to_digits 32;
}

opening_tx-IsTypedTx : IsTypedTx opening_tx
opening_tx-IsTypedTx = record {
  txid = omega arith;
  output = omega arith;
  balance = omega arith;
  oracle_price = omega arith;
  oracle_timestamp = omega arith;
  liquidation_price = omega arith;
  liquidation_hash = refl;
}

pub opening_meta-IsTyped : IsTyped opening_meta
opening_meta-IsTyped = record {
  vault_id = omega arith;
  txid = omega arith;
  output = omega arith;
  balance = omega arith;
  oracle_price = omega arith;
  oracle_timestamp = omega arith;
  liquidation_price = omega arith;
  liquidation_hash = refl;
  block_hash = omega arith;
  block_pos = omega arith;
  height = omega arith;
  btc_custody = omega arith;
  unit_volume = omega arith;
  btc_volume = omega arith;
  prev_tx = omega arith;
}

pub deposit_tx-IsTypedTx : IsTypedTx deposit_tx
deposit_tx-IsTypedTx = record {
  txid = omega arith;
  output = omega arith;
  balance = omega arith;
  oracle_price = omega arith;
  oracle_timestamp = omega arith;
  liquidation_price = tt;
  liquidation_hash = tt;
}

pub place-IsTypedPlace : IsTypedPlace place
place-IsTypedPlace = record {
  block_hash = omega arith;
  block_pos = omega arith;
  height = omega arith;
}

no_vaults-IsReadable : IsReadable no_vaults
unfolding lookup
no_vaults-IsReadable = record { vaults = λ id row e. cc; transactions = λ txid m e. cc }

pub one_vault-IsReadable : IsReadable one_vault
one_vault-IsReadable =
    (store_vault_tx-IsReadable opening_tx place opening_raw no_vaults one_vault opening_meta []
      opening_tx-IsTypedTx place-IsTypedPlace no_vaults-IsConsistent no_vaults-IsReadable
      open_run).0

store_vault_tx-IsReadable_example :
    IsReadable after_deposit
    × (Loaders.load_vault_meta (Loaders.vault_row deposit_meta (1 ∷ 0 ∷ [])) ≡ ok deposit_meta)
store_vault_tx-IsReadable_example =
    store_vault_tx-IsReadable deposit_tx place deposit_raw one_vault after_deposit deposit_meta
      (1 ∷ 0 ∷ []) deposit_tx-IsTypedTx place-IsTypedPlace one_vault-IsConsistent
      one_vault-IsReadable deposit_run
