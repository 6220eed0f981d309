-- ===== src/Service/Client/Answers.antt =====
-- Every message of a client is answered, in order (vault-indexer/src/service.rs).
use Prim.Native.String.{String}
use mutinynet_indexer.Common.{◌≡◌, refl, ap, Bool, true, false, ◌&&◌, some, List, [], ◌∷◌, ◌++◌}
use mutinynet_indexer.Common.Outcome.{Outcome, ok, err}
use mutinynet_indexer.Common.Text.{Lowercase}
use mutinynet_indexer.Db.Loaders.{RowGet, HashBytes}
use mutinynet_indexer.Db.Vault.{VaultTables}
use mutinynet_indexer.Db.Vault.Advance.{RowOrder}
use mutinynet_indexer.Network.{Network}
use mutinynet_indexer.Service.{
  Error, sending_bus, Result, Request, Response, HashText, process_request,
}
use mutinynet_indexer.Service.Client.{
  Json, Turn, Message, OwnedMessage, text, binary, ping, pong, close, lost, text_message,
  pong_message, encode_result, reply_to_request, send_then, client_handler,
}

-- Texts, pings and pongs, which do not end the conversation.
abbrev pub keeps_open : List Turn → Bool
keeps_open [] = true
keeps_open ((text _, _, _) ∷ turns) = keeps_open turns
keeps_open ((ping _, _, _) ∷ turns) = keeps_open turns
keeps_open ((pong _, _, _) ∷ turns) = keeps_open turns
keeps_open (_ ∷ turns) = false

-- The messages on which the handler has something to send.
abbrev pub wants_reply : OwnedMessage → Bool
wants_reply (text _) = true
wants_reply (binary _) = true
wants_reply (ping _) = true
wants_reply _ = false

-- The thread that writes runs all the time.
abbrev pub keeps_writing : List Turn → Bool
keeps_writing [] = true
keeps_writing ((_, _, writing) ∷ turns) = writing && keeps_writing turns

module _ ⦃j : Json⦄ where
  -- The encoders give a text for whatever they are given.
  pub record IsTotal : Type 0 where
    pub response : (r : Response) → (s : String) × (j.encode_response r ≡ some s)
    pub failure : (e : String) → (s : String) × (j.encode_client_error e ≡ some s)

module _ ⦃g : RowGet⦄ ⦃hb : HashBytes⦄ ⦃l : Lowercase⦄ ⦃q : RowOrder⦄ ⦃h : HashText⦄
    ⦃j : Json⦄ where
  -- What answers a text on the given tables: the error of a text that is no request, the error of
  -- a request that failed, or the response to a request.
  pub data IsAnswer (network : Network) (db : VaultTables) (txt reply : String) : Type 0 where
    malformed :
        (e : String)
        → j.decode_request txt ≡ err e
        → j.encode_client_error e ≡ some reply
        → IsAnswer network db txt reply
    failed :
        (request : Request) (e : Error)
        → j.decode_request txt ≡ ok request
        → process_request network request db ≡ err e
        → j.encode_client_error (j.error_to_string e) ≡ some reply
        → IsAnswer network db txt reply
    answered :
        (request : Request) (response : Response)
        → j.decode_request txt ≡ ok request
        → process_request network request db ≡ ok response
        → j.encode_response response ≡ some reply
        → IsAnswer network db txt reply

  answer_to_result :
      (network : Network) (db : VaultTables) (txt : String) (request : Request)
      (result : Result Response)
      → IsTotal
      → j.decode_request txt ≡ ok request
      → process_request network request db ≡ result
      → (reply : String) × (encode_result result ≡ some reply) × IsAnswer network db txt reply
  unfolding encode_result
  answer_to_result network db txt request (ok response) total decoded run =
      let (reply, made) = total.response response in
      (reply, made, answered request response decoded run made)
  answer_to_result network db txt request (err e) total decoded run =
      let (reply, made) = total.failure (j.error_to_string e) in
      (reply, made, failed request e decoded run made)

  answer_to :
      (network : Network) (db : VaultTables) (txt : String) (decoded : Outcome String Request)
      → IsTotal
      → j.decode_request txt ≡ decoded
      → (reply : String) × (reply_to_request network db decoded ≡ some reply)
        × IsAnswer network db txt reply
  unfolding reply_to_request
  answer_to network db txt (err e) total run =
      let (reply, made) = total.failure e in (reply, made, malformed e run made)
  answer_to network db txt (ok request) total run =
      answer_to_result network db txt request (process_request network request db) total run refl

  -- The replies are those to the messages in their order, each on the tables of its time.
  abbrev pub AreAnswers : Network → List Turn → List Message → Type 0
  AreAnswers network [] [] = Unit {0}
  AreAnswers network ((text txt, db, _) ∷ turns) (text_message reply ∷ replies) =
      IsAnswer network db txt reply × AreAnswers network turns replies
  AreAnswers network ((ping v, _, _) ∷ turns) (pong_message w ∷ replies) =
      (v ≡ w) × AreAnswers network turns replies
  AreAnswers network ((pong _, _, _) ∷ turns) replies = AreAnswers network turns replies
  AreAnswers network _ _ = ⊥

  -- A message that wants a reply, when the thread that writes has ended.
  client_handler-unsent :
      IsTotal
      → (network : Network) (message : OwnedMessage) (db : VaultTables) (rest : List Turn)
      → wants_reply message ≡ true
      → client_handler network ((message, db, false) ∷ rest) ≡ ([], err sending_bus)
  unfolding client_handler send_then
  client_handler-unsent total network (text txt) db rest wants =
      let (content, made, is) = answer_to network db txt (j.decode_request txt) total refl in
      rw (client_handler, made) refl
  client_handler-unsent total network (binary _) db rest wants = refl
  client_handler-unsent total network (ping v) db rest wants = refl
  client_handler-unsent total network (pong _) db rest wants = cc
  client_handler-unsent total network close db rest wants = cc
  client_handler-unsent total network lost db rest wants = cc

  -- Where the JSON encoders do not fail and the thread that writes to the client runs all the time,
  -- a conversation of texts, pings and pongs goes on to its end without an error, whatever the
  -- texts are and however the tables change meanwhile: every text gets one reply, the response to
  -- its request on the tables of that time or the error that it met, and every ping a pong with its
  -- payload, in the order of the messages. And where that thread has ended by the next message that
  -- wants a reply, the conversation has the same replies and ends there with the error of the bus.
  pub client_handler-AreAnswers :
      IsTotal
      → (network : Network) (turns : List Turn) → keeps_open turns ≡ true
      → keeps_writing turns ≡ true
      → (message : OwnedMessage) (db : VaultTables) (rest : List Turn) → wants_reply message ≡ true
      → (replies : List Message) × (client_handler network turns ≡ (replies, ok tt))
        × (client_handler network (turns ++ ((message, db, false) ∷ rest))
            ≡ (replies, err sending_bus))
        × AreAnswers network turns replies
  unfolding client_handler send_then
  client_handler-AreAnswers total network [] still on message db rest wants =
      ([], refl, client_handler-unsent total network message db rest wants, tt)
  client_handler-AreAnswers total network ((text txt, at, true) ∷ turns) still on message db rest
        wants =
      let (content, made, is) = answer_to network at txt (j.decode_request txt) total refl in
      let (replies, run, cut, are) =
        client_handler-AreAnswers total network turns still on message db rest wants in
      (
        text_message content ∷ replies,
        rw (client_handler, made, run) refl,
        rw (client_handler, made, cut) refl,
        (is, are),
      )
  client_handler-AreAnswers total network ((ping v, at, true) ∷ turns) still on message db rest
        wants =
      let (replies, run, cut, are) =
        client_handler-AreAnswers total network turns still on message db rest wants in
      (
        pong_message v ∷ replies,
        ap (λ r. (pong_message v ∷ r.0, r.1)) run,
        ap (λ r. (pong_message v ∷ r.0, r.1)) cut,
        (refl, are),
      )
  client_handler-AreAnswers total network ((pong _, at, true) ∷ turns) still on message db rest
        wants =
      client_handler-AreAnswers total network turns still on message db rest wants
  client_handler-AreAnswers total network ((_, at, _) ∷ turns) still on message db rest wants = cc
