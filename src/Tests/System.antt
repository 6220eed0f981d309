-- ===== src/Tests/System.antt =====
-- Turns of the threads around one handshake, and queues with room for one event
-- (vault-indexer/src/indexer/mod.rs).
use mutinynet_indexer.Common.{ℕ, refl, true, [], ◌∷◌, arith}
use mutinynet_indexer.Indexer.{send}
use mutinynet_indexer.Indexer.Event.{Event, handshaked, outcoming_message}
use mutinynet_indexer.Cache.Headers.Requests.{make_get_headers}
use mutinynet_indexer.Common.Int.{◌-ℤ◌}
use mutinynet_indexer.Indexer.Handlers
use mutinynet_indexer.Indexer.Run as Loop
use mutinynet_indexer.Indexer.System.{
  System, started, broadcast_to, post, outgoing, dispatches, receives, writes, passes_by, takes,
  sends, Step, dispatcher, node, main, Runs, start, later,
}
use mutinynet_indexer.Indexer.System.Delivery.{IsDelivered, Runs-IsDelivered}
use mutinynet_indexer.P2p.{get_headers}
use mutinynet_indexer.Tests.Cache.{blocks}
use mutinynet_indexer.Tests.Indexer.{ordinals, two_ahead, locator}
use mutinynet_indexer.Tests.Vault.{script, no_vaults-IsConsistent}

abbrev asks : Event ℕ
asks = handshaked 2

abbrev answers : Event ℕ
answers = outcoming_message (get_headers locator)

-- The handshake was taken, and the question for headers waits in the channel.
abbrev answered : System ℕ
answered = record (started two_ahead) {
  channel = answers ∷ [];
  node_queue = asks ∷ [];
  asked = get_headers locator ∷ [];
  posted = asks ∷ answers ∷ [];
  handled = asks ∷ [];
}

-- The question is in both queues, and then at the socket.
abbrev queued : System ℕ
queued = broadcast_to answers (record answered { channel = [] })

abbrev written : System ℕ
written = record queued { node_queue = []; writes = (get_headers locator, true) ∷ [] }

answered_runs : Runs 2 1 (started two_ahead) answered
unfolding Loop.on_event Handlers.on_handshake Handlers.request_headers send outgoing
    make_get_headers ◌-ℤ◌
answered_runs =
    let came : System ℕ = post asks (started two_ahead) in
    let spread : System ℕ = broadcast_to asks (record came { channel = [] }) in
    let taken : System ℕ = record spread {
      indexer = record spread.indexer { sent = answers ∷ [] };
      main_queue = [];
      handled = asks ∷ [];
      asked = get_headers locator ∷ [];
    } in
    let one : Step 2 1 (started two_ahead) came = node (receives asks tt tt (omega arith)) in
    let two : Step 2 1 came spread =
      dispatcher (dispatches asks [] refl (omega arith, omega arith)) in
    let three : Step 2 1 spread taken = main (takes asks [] _ refl refl refl refl) in
    let four : Step 2 1 taken answered = main (sends answers [] refl (omega arith)) in
    later (later (later (later start one) two) three) four

written_runs : Runs 2 1 (started two_ahead) written
unfolding outgoing
written_runs =
    let spread : Step 2 1 answered queued =
      dispatcher (dispatches answers [] refl (omega arith, omega arith)) in
    let left : System ℕ = record queued { node_queue = answers ∷ [] } in
    let passed_by : Step 2 1 queued left = node (passes_by asks (answers ∷ []) refl refl) in
    let done : Step 2 1 left written = node (writes (get_headers locator) true [] refl) in
    later (later (later answered_runs spread) passed_by) done

Runs-IsDelivered_example : IsDelivered written
Runs-IsDelivered_example =
    Runs-IsDelivered 2 1 two_ahead written no_vaults-IsConsistent written_runs

-- Queues with room for one event, and all are full while a question is to be sent.
abbrev crowded : System ℕ
crowded = record (started two_ahead) {
  indexer = record two_ahead { sent = answers ∷ [] };
  channel = asks ∷ [];
  main_queue = asks ∷ [];
  node_queue = asks ∷ [];
}

abbrev emptied : System ℕ
emptied = record crowded { node_queue = [] }
