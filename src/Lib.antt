-- ===== src/Lib.antt =====
-- A model of the vault indexer (vault-indexer/src), which follows a Bitcoin network, keeps the
-- chain of headers, finds the vault transactions in its blocks and stores them in SQLite.
--
-- The parts, and the files that model them:
--   * Network: the networks, with Network.Names (vault-indexer/src/indexer/network.rs);
--   * Cache.Chain: `HeaderChain`, a run of headers that grows at both ends, and Cache.Headers:
--     `HeadersCache`, the headers that are known, with the main chain by height
--     (vault-indexer/src/cache/headers.rs). Cache.Headers.Sync has `update_longest_chain` and
--     `process_orphans`; each branch of the former is a function: `extend_main`, `join_fork` and
--     `stash`. Cache.Headers.Requests has the locator and the messages to a peer, and
--     Cache.Headers.Storage what is read from the database and written to it. The other modules
--     below Cache.Headers are proofs, named for what they prove;
--   * Cache.Block: what the cache uses of a header, as an interface: its hash, its parent's hash
--     and its work, with the facts that no header has the zero hash and that a hash is the hash
--     of one header only;
--   * Db.Header and Db.Metadata: the tables of headers and of metadata
--     (vault-indexer/src/db/header.rs, vault-indexer/src/db/metadata.rs);
--   * Vault.Action, Vault.Version, Vault.Transaction, Vault.Bytes, Vault.Parse and Vault.Custody:
--     vault transactions and their parser (vault-indexer/src/vault/transaction.rs). Vault.Encode
--     describes the layout that the parser is held against;
--   * Vault.Runes: transfers of the UNIT rune (vault-indexer/src/vault/runes.rs);
--   * Db.Vault: the tables of vaults and of vault and UNIT transactions
--     (vault-indexer/src/db/vault/basic.rs, vault-indexer/src/db/vault/rune.rs);
--   * Db.Loaders: how the columns of a row are read and written
--     (vault-indexer/src/db/loaders.rs), with the rows of vault and of UNIT transactions;
--     the modules below it are proofs;
--   * Db.Setup: the database as a whole and `initialize_db` (vault-indexer/src/db/mod.rs);
--   * Db.Vault.Advance: the queries over the history (vault-indexer/src/db/vault/advance.rs), and
--     Vault.Names: the names of actions and versions;
--   * P2p: the messages of the `bitcoin` crate, as far as they are read or made;
--   * Indexer: the state of the indexer (vault-indexer/src/indexer/mod.rs), its events
--     (vault-indexer/src/indexer/event.rs) and errors. Indexer.Blocks has `process_block` and the
--     detection of transactions, Indexer.Handlers the reactions to messages, Indexer.Run the loop,
--     and Indexer.Builder the `IndexerBuilder`. Indexer.Node has the framing of messages, the
--     handshake, a whole connection (Indexer.Node.Process) and the worker
--     (vault-indexer/src/indexer/node.rs), and Indexer.System the threads
--     with the channel and the bus between them. The other modules below are proofs;
--   * Service: the requests of the websocket service and the conversation with a client
--     (vault-indexer/src/service.rs);
--   * Main: the arguments and the start of the program (vault-indexer/src/main.rs);
--   * Tests: small inputs, and the theorems applied to them.
--
-- The parts meet where the source's do: the parser gives a `VaultTx`, which `store_vault_tx` takes
-- with the transaction it was found in; the cache stores `HeaderRecord`s, which are the rows of
-- the table of headers. The indexer holds the cache, the tables and two counters of its loop; each
-- event makes it call one handler, which asks the cache for requests and hands transactions to the
-- parser and the tables.
--
-- How the source is written here. A method that changes its object takes the old state and returns
-- the new one, or an error. Hashes are numbers, since they are only compared, and the source's
-- `HashMap` and the tables are association lists in the order of insertion. Heights and counts are
-- natural numbers; the casts that lose bits are written out. A panic is an error of its own. The
-- iterators over bytes are functions to what was read and what is left.
--
-- Fuel. The walk towards genesis has one round more than the height of the header it begins at,
-- which is enough in a forest. `update_longest_chain` and `process_orphans` call one another; their
-- fuel bounds how deep, and the indexer hands it on: the source recurses without end when a header
-- that is stored is kept as an orphan as well, and not at all without orphans. The loop of the
-- locator has one round more than the height, and the loop that fills the main chain one for each
-- height. The batches of `store_raw_headers` have as much fuel as there are rows.
--
-- Parameters. The `bitcoin` crate's test for OP_RETURN scripts and the `ordinals` crate's
-- `Runestone::decipher` are arguments of what uses them. The SQL statements are modelled from the
-- text of the queries. Foreign keys are not checked, since the connection does not turn them on.
-- The genesis headers of the networks, the magic bytes of the crate's networks, its decoder of
-- messages, the texts of hashes, the JSON encoders and `str::to_lowercase` are arguments, too, and
-- so are rusqlite's `Row::get`, the bytes of a hash and `consensus_decode`, for what is read from
-- a row. The order in which SQLite gives the rows of a query without ORDER BY is one as well: any
-- order of the rows that are selected. In a conversation with a client, what comes in is a
-- message, the tables of that time, and whether the thread that writes to the client still runs.
--
-- Not modelled: sockets, the JSON texts of the websocket service and the parsing of the command
-- line. Locks and the log are left out of the indexer, and its handlers are one step of the main
-- loop each: the events that come of a handler wait in the state, and are passed on one by one
-- before the next event is taken. The contents of our own version message are not
-- modelled, only that it is sent.
pub mod Common
pub mod Network
pub mod P2p
pub mod Db
pub mod Cache
pub mod Vault
pub mod Indexer
pub mod Service
pub mod Main
pub mod Tests
