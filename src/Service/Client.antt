-- ===== src/Service/Client.antt =====
-- The conversation with a client (vault-indexer/src/service.rs, `client_handler`).
pub mod Answers
use Prim.Native.String.{String}
use mathlib.Core.Option
use mutinynet_indexer.Common.{ℕ, Bool, true, false, Option, none, some, List, [], ◌∷◌, ◌++◌}
use mutinynet_indexer.Common.Outcome.{Outcome, ok, err}
use mutinynet_indexer.Common.Text.{Lowercase}
use mutinynet_indexer.Db.Loaders.{RowGet, HashBytes}
use mutinynet_indexer.Db.Vault.{VaultTables}
use mutinynet_indexer.Db.Vault.Advance.{RowOrder}
use mutinynet_indexer.Indexer.Event.{Event}
use mutinynet_indexer.Indexer.Event
use mutinynet_indexer.Network.{Network}
use mutinynet_indexer.Service.{
  Error, Result, client_error, unsupported_binary, encoding_message, sending_bus, Request, Response,
  HashText, process_request, from_db_metainfo, new_transaction,
}

-- What is used of `serde_json`, and the texts of errors.
pub record Json : Type 0 where
  pub decode_request : String → Outcome String Request
  pub encode_response : Response → Option String
  pub encode_client_error : String → Option String
  pub error_to_string : Error → String

-- The messages of the `websocket` crate; `lost` is an error of the connection.
pub data OwnedMessage : Type 0 where
  text : String → OwnedMessage
  binary : List ℕ → OwnedMessage
  ping : List ℕ → OwnedMessage
  pong : List ℕ → OwnedMessage
  close : OwnedMessage
  lost : OwnedMessage

pub data Message : Type 0 where
  text_message : String → Message
  pong_message : List ℕ → Message

-- What a round of the loop meets: a message, the tables as the indexer has brought them by then,
-- and whether the thread that writes to the client still runs.
abbrev pub Turn : Type 0
Turn = OwnedMessage × VaultTables × Bool

module _ ⦃h : HashText⦄ ⦃j : Json⦄ where
  -- The text that answers a result; a failed request is answered by its error.
  unfoldable pub encode_result : Result Response → Option String
  encode_result (ok response) = j.encode_response response
  encode_result (err e) = j.encode_client_error (j.error_to_string e)

  -- What the listener of the event bus sends to the client: the vault transactions that are new.
  unfoldable pub notifications : {H : Type 0} → Network → List (Event H) → List Message
  unfolding from_db_metainfo
  notifications network [] = []
  notifications network (Event.new_transaction new_tx ∷ events) =
      let rest = notifications network events in
      elim (j.encode_response (new_transaction (from_db_metainfo network new_tx))) [
        | none ↦ rest
        | some encoded_info ↦ text_message encoded_info ∷ rest
      ]
  notifications network (_ ∷ events) = notifications network events

module _ ⦃g : RowGet⦄ ⦃hb : HashBytes⦄ ⦃l : Lowercase⦄ ⦃q : RowOrder⦄ ⦃h : HashText⦄
    ⦃j : Json⦄ where
  unfoldable pub reply_to_request : Network → VaultTables → Outcome String Request → Option String
  unfolding process_request encode_result
  reply_to_request network db (err e) = j.encode_client_error e
  reply_to_request network db (ok request) = encode_result (process_request network request db)

  -- A reply that the thread that writes still takes goes before the rest of the conversation.
  -- Without a reply, and when that thread has ended, the conversation ends.
  unfoldable pub send_then :
      Bool → Option Message → List Message × Result (Unit {0}) → List Message × Result (Unit {0})
  send_then writing none rest = ([], err encoding_message)
  send_then false (some reply) rest = ([], err sending_bus)
  send_then true (some reply) (replies, ended) = (reply ∷ replies, ended)

  -- The loop over the messages of a client: the replies, and how it ends.
  unfoldable pub client_handler : Network → List Turn → List Message × Result (Unit {0})
  unfolding reply_to_request send_then
  client_handler network [] = ([], ok tt)
  client_handler network ((text txt, db, writing) ∷ turns) =
      send_then writing
        (Option.map text_message (reply_to_request network db (j.decode_request txt)))
        (client_handler network turns)
  client_handler network ((binary _, db, writing) ∷ turns) =
      send_then writing (some (text_message "Expected JSON request")) ([], err unsupported_binary)
  client_handler network ((ping v, db, writing) ∷ turns) =
      send_then writing (some (pong_message v)) (client_handler network turns)
  client_handler network ((close, db, writing) ∷ turns) = ([], ok tt)
  client_handler network ((pong _, db, writing) ∷ turns) = client_handler network turns
  client_handler network ((lost, db, writing) ∷ turns) = ([], err client_error)
