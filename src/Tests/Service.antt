-- ===== src/Tests/Service.antt =====
-- Queries, names and a conversation (vault-indexer/src/db/vault/advance.rs,
-- vault-indexer/src/service.rs).
use mathlib.Core.List.Permᴰ
use mutinynet_indexer.Common.{
  ◌≡◌, refl, true, none, some, List, reverse, [], ◌∷◌, ◌++◌, false, ◌*◌, ◌&&◌, ◌==◌, if◌then◌else◌,
}
use mutinynet_indexer.Common.Dict.{values}
use mutinynet_indexer.Common.Outcome as Outcome
use mutinynet_indexer.Db.Error as DbError
use mutinynet_indexer.Db.Vault.Advance
use mutinynet_indexer.Db.Vault.Advance.{ActionAggItem, RowOrder, in_range, is_action, abs}
use mutinynet_indexer.Db.Vault.Advance.Totals.{
  IsOrdered, Gains, sum_of, action_aggregated-sums, range_history-store,
}
use mutinynet_indexer.Network.{signet}
use mutinynet_indexer.Service.{HashText, sending_bus}
use mutinynet_indexer.Service.Client
use mutinynet_indexer.Service.Client.{Json, Message}
use mutinynet_indexer.Service.Client.Answers.{AreAnswers, client_handler-AreAnswers}
use mutinynet_indexer.Tests.Loaders.{
  lowercase, row_get, hash_bytes, deposit_tx-IsTypedTx, place-IsTypedPlace, one_vault-IsReadable,
  opening_meta-IsTyped,
}
use mutinynet_indexer.Tests.Vault.{
  deposit_tx, deposit_raw, place, one_vault, one_vault-IsConsistent, after_deposit, deposit_meta,
  deposit_run,
}
use mutinynet_indexer.Vault.Action
use mutinynet_indexer.Vault.Action.{deposit, opening}

-- The rows come the other way round.
instance row_order : RowOrder
row_order = record { arrange = reverse; arrange_permutes = λ rows. Permᴰ.reverse rows }

range_history-store_example :
    Gains
      (Advance.range_history_all none none one_vault)
      (Advance.range_history_all none none after_deposit)
      (if in_range none none deposit_meta then deposit_meta ∷ [] else [])
    × Gains
        (Advance.range_history_vault 77 none none one_vault)
        (Advance.range_history_vault 77 none none after_deposit)
        (if (deposit_meta.vault_id == 77) && in_range none none deposit_meta
          then deposit_meta ∷ []
          else [])
unfolding values
range_history-store_example =
    range_history-store deposit_tx place deposit_raw one_vault after_deposit deposit_meta 77 none
      none deposit_tx-IsTypedTx place-IsTypedPlace one_vault-IsConsistent one_vault-IsReadable
      (opening_meta-IsTyped, tt) deposit_run

-- The opening of the vault, on its day.
abbrev opening_items : List ActionAggItem
opening_items =
    record { timestamp_start = 1699920000; unit_volume = 100000; btc_volume = 5000 } ∷ []

opening_items_run :
    Advance.action_aggregated opening (3600 * 24) one_vault ≡ DbError.ok opening_items
unfolding values Advance.action_aggregated Action.to_protocol
opening_items_run = refl

action_aggregated-sums_example :
    IsOrdered (3600 * 24) 0 opening_items
    × (sum_of (λ i. i.unit_volume) opening_items
        ≡ Advance.total
            (λ r. abs r.unit_volume)
            (Advance.select (is_action opening) (values one_vault.transactions)))
    × (sum_of (λ i. i.btc_volume) opening_items
        ≡ Advance.total
            (λ r. abs r.btc_volume)
            (Advance.select (is_action opening) (values one_vault.transactions)))
action_aggregated-sums_example =
    action_aggregated-sums opening (3600 * 24) one_vault opening_items opening_items_run

instance hash_text : HashText
hash_text = record { to_string = λ hash. "ab"; encode = λ bytes. "cd"; txid_from_str = λ s. none }

instance json : Json
json = record {
  decode_request = λ s. Outcome.err "expected value";
  encode_response = λ r. some "{}";
  encode_client_error = λ e. some e;
  error_to_string = λ e. "error";
}

json-IsTotal : Client.Answers.IsTotal
unfolding json
json-IsTotal = record { response = λ r. ("{}", refl); failure = λ e. (e, refl) }

abbrev conversation : List Client.Turn
conversation = (Client.text "x", one_vault, true) ∷ (Client.ping (1 ∷ []), after_deposit, true) ∷ []

client_handler-AreAnswers_example :
    (replies : List Message) × (Client.client_handler signet conversation
      ≡ (replies, Outcome.ok tt))
    × (Client.client_handler signet (conversation ++ ((Client.text "y", one_vault, false) ∷ []))
        ≡ (replies, Outcome.err sending_bus))
    × AreAnswers signet conversation replies
client_handler-AreAnswers_example =
    client_handler-AreAnswers json-IsTotal signet conversation refl refl (Client.text "y") one_vault
      [] refl
