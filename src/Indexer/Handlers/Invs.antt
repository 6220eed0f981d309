-- ===== src/Indexer/Handlers/Invs.antt =====
-- What the indexer asks for when the node announces blocks (vault-indexer/src/indexer/mod.rs).
use mathlib.Core.List.{append_assoc, append-nil}
use mutinynet_indexer.Common.{
  ℕ, suc, ◌≡◌, ap, sym, ◌∙◌, none, some, List, [], ◌∷◌, ◌++◌, replicate, inl, inr, Option-cases,
}
use mutinynet_indexer.Common.Dict.{Dict, lookup}
use mutinynet_indexer.Cache.Error as Cache
use mutinynet_indexer.Cache.Headers.{get_header}
use mutinynet_indexer.Cache.Headers.Requests.{make_get_headers}
use mutinynet_indexer.Indexer.{Indexer, send}
use mutinynet_indexer.Indexer.Error.{ok}
use mutinynet_indexer.Indexer.Event.{outcoming_message}
use mutinynet_indexer.Indexer.Handlers.{request_headers, on_new_invs, ask_unknown}
use mutinynet_indexer.P2p.{GetHeadersMessage, get_headers}
use mutinynet_indexer.P2p.Blockdata as Inventory
use mutinynet_indexer.P2p.Blockdata.{Inventory as Entry}

-- How many of the announced blocks have no header in the table.
unfoldable pub count_unknown {ℓ} : {V : Type ℓ} → Dict V → List Entry → ℕ
count_unknown table [] = 0
count_unknown table (Inventory.block hash ∷ invs) = elim (lookup hash table) [
  | some _ ↦ count_unknown table invs
  | none ↦ suc (count_unknown table invs)
]
count_unknown table (Inventory.other ∷ invs) = count_unknown table invs

module _ {H : Type 0} where
  abbrev pub asking : ℕ → GetHeadersMessage → Indexer H → Indexer H
  asking n msg s = record s { sent = s.sent ++ replicate n (outcoming_message (get_headers msg)) }

  -- Where a locator can be made, an inventory is answered without an error, by asking for headers
  -- once for every announced block whose header is not known, and nothing else changes. Whether
  -- the block is known is looked up by its hash; entries that are no blocks are passed by.
  pub on_new_invs-asks :
      (invs : List Entry) (msg : GetHeadersMessage) (s : Indexer H)
      → make_get_headers s.headers_cache ≡ Cache.ok msg
      → on_new_invs invs s ≡ ok (asking (count_unknown s.headers_cache.headers invs) msg s)
  unfolding on_new_invs ask_unknown get_header count_unknown request_headers send
  on_new_invs-asks [] msg s made = ap (λ l. ok (record s { sent = l })) (sym (append-nil s.sent))
  on_new_invs-asks (Inventory.other ∷ invs) msg s made = on_new_invs-asks invs msg s made
  on_new_invs-asks (Inventory.block hash ∷ invs) msg s made =
      elim (Option-cases (lookup hash s.headers_cache.headers)) [
        | inl gone ↦
            (let s' : Indexer H = send (outcoming_message (get_headers msg)) s in
              rw (count_unknown, gone, made)
                (on_new_invs-asks invs msg s' made
                  ∙ ap (λ l. ok (record s { sent = l }))
                      (append_assoc s.sent (outcoming_message (get_headers msg) ∷ []) _)))
        | inr (r, found) ↦ rw (count_unknown, found) (on_new_invs-asks invs msg s made)
      ]
