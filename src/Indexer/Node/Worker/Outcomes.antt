-- ===== src/Indexer/Node/Worker/Outcomes.antt =====
-- When a handshake succeeds, and how the worker goes on after errors
-- (vault-indexer/src/indexer/node.rs).
use mathlib.Core.List.{append-nil}
use mutinynet_indexer.Common.{
  ℕ, ◌+◌, ◌≡◌, ◌≢◌, refl, sym, ap, ◌∙◌, ◌↔◌, none, some, Bool, true, false, not, List, [], ◌∷◌,
  ◌++◌, length, map, ◌==◌, arith,
}
use mutinynet_indexer.Indexer.Node.Error.{
  Error, Result, ok, err, event_bus_send, event_bus_recv, socket_clone_fail, socket_shutdown_fail,
  failed_resolve, no_socket_address, connection, sending_msg, receiving_header, receiving_payload,
  wrong_magic, decoding_message, no_version_message, no_verack_message, self_connection, guard,
  >>=-eq-ok,
}
use mutinynet_indexer.Common.Outcome.{ok-injective}
use mutinynet_indexer.Indexer.Node.Worker.{
  expect_version, expect_verack, node_handshake, unsigned32, is_recoverable, reported, node_worker,
}
use mutinynet_indexer.P2p.{NetworkMessage, VersionMessage, version, verack}

-- The errors of the network, of the stream and of the other side, which another connection may not
-- have: all but those of the bus, which has no other end any more, and that of a node of another
-- network.
pub data IsLost : Error → Type 0 where
  clone_fail : IsLost socket_clone_fail
  shutdown_fail : IsLost socket_shutdown_fail
  resolve : IsLost failed_resolve
  no_address : IsLost no_socket_address
  no_connection : IsLost connection
  not_sent : IsLost sending_msg
  no_header : IsLost receiving_header
  no_payload : IsLost receiving_payload
  not_decoded : (bytes : List ℕ) → IsLost (decoding_message bytes)
  no_version : IsLost no_version_message
  no_verack : IsLost no_verack_message
  own_connection : IsLost self_connection

abbrev pub AllLost : List Error → Type 0
AllLost [] = Unit {0}
AllLost (e ∷ es) = IsLost e × AllLost es

-- A connection that the worker ends with, and what it ends with: it was terminated, the bus is
-- gone, the node is of another network, or the connection is lost and nobody can be told.
pub data Ends : Result (Unit {0}) × Result (Unit {0}) → Result (Unit {0}) → Type 0 where
  terminated : (posted : Result (Unit {0})) → Ends (ok tt, posted) (ok tt)
  bus_send : (posted : Result (Unit {0})) → Ends (err event_bus_send, posted) (err event_bus_send)
  bus_recv : (posted : Result (Unit {0})) → Ends (err event_bus_recv, posted) (err event_bus_recv)
  other_network :
      (magic ours : List ℕ) (posted : Result (Unit {0}))
      → Ends (err (wrong_magic magic ours), posted) (err (wrong_magic magic ours))
  untold : (e stop : Error) → IsLost e → Ends (err e, err stop) (err stop)

-- Lost connections, each of which could be reported.
abbrev pub losses : List Error → List (Result (Unit {0}) × Result (Unit {0}))
losses errors = map (λ e. (err e, ok tt)) errors

IsLost-is_recoverable : (e : Error) → IsLost e → is_recoverable e ≡ true
unfolding is_recoverable
IsLost-is_recoverable e clone_fail = refl
IsLost-is_recoverable e shutdown_fail = refl
IsLost-is_recoverable e resolve = refl
IsLost-is_recoverable e no_address = refl
IsLost-is_recoverable e no_connection = refl
IsLost-is_recoverable e not_sent = refl
IsLost-is_recoverable e no_header = refl
IsLost-is_recoverable e no_payload = refl
IsLost-is_recoverable e (not_decoded bytes) = refl
IsLost-is_recoverable e no_version = refl
IsLost-is_recoverable e no_verack = refl
IsLost-is_recoverable e own_connection = refl

node_worker-Ends :
    (last : Result (Unit {0}) × Result (Unit {0})) (ended : Result (Unit {0}))
    (rest : List (Result (Unit {0}) × Result (Unit {0})))
    → Ends last ended
    → node_worker (last ∷ rest) ≡ (0, some ended)
unfolding node_worker is_recoverable reported
node_worker-Ends last ended rest (terminated posted) = refl
node_worker-Ends last ended rest (bus_send posted) = refl
node_worker-Ends last ended rest (bus_recv posted) = refl
node_worker-Ends last ended rest (other_network magic ours posted) = refl
node_worker-Ends last ended rest (untold e stop lost) =
    rw (node_worker, IsLost-is_recoverable e lost) refl

node_worker-losses :
    (errors : List Error) (rest : List (Result (Unit {0}) × Result (Unit {0})))
    → AllLost errors
    → node_worker (losses errors ++ rest)
      ≡ (length errors + (node_worker rest).0, (node_worker rest).1)
unfolding node_worker reported
node_worker-losses [] rest all = ap (λ n. (n, (node_worker rest).1)) (omega arith)
node_worker-losses (e ∷ errors) rest (lost, all) =
    rw (node_worker, IsLost-is_recoverable e lost, node_worker-losses errors rest all)
      (ap (λ n. (n, (node_worker rest).1)) (omega arith))

-- Whatever connections are lost one after another, by errors of the network, of the stream or of
-- the other side, the worker posts each loss and goes on, without an end of its own; it ends with
-- the first connection that is terminated, finds the bus gone or the node on another network, or
-- whose loss cannot be posted, and with what that one gives, whatever would come after.
pub node_worker-recovers :
    (errors : List Error) (last : Result (Unit {0}) × Result (Unit {0})) (ended : Result (Unit {0}))
    (rest : List (Result (Unit {0}) × Result (Unit {0})))
    → AllLost errors
    → Ends last ended
    → (node_worker (losses errors) ≡ (length errors, none))
      × (node_worker (losses errors ++ (last ∷ rest)) ≡ (length errors, some ended))
unfolding node_worker
node_worker-recovers errors last ended rest all ends = (
  ap node_worker (sym (append-nil (losses errors)))
      ∙ node_worker-losses errors [] all
      ∙ ap (λ n. (n, none)) (omega arith),
  node_worker-losses errors (last ∷ rest) all
      ∙ ap (λ w. (length errors + w.0, w.1)) (node_worker-Ends last ended rest ends)
      ∙ ap (λ n. (n, some ended)) (omega arith),
)

guard-other : (t : Bool) {u : Unit {0}} → guard (not t) self_connection ≡ ok u → t ≡ false
guard-other false h = refl
guard-other true h = cc

module _ {H : Type 0} where
  expect_version-eq-ok :
      (msg : NetworkMessage H) (ver : VersionMessage)
      → expect_version msg ≡ ok ver
      → msg ≡ version ver
  unfolding expect_version
  expect_version-eq-ok (version v) ver h = ap version (ok-injective h)
  expect_version-eq-ok _ ver h = cc

  expect_verack-eq-ok :
      (msg : NetworkMessage H) {u : Unit {0}} → expect_verack msg ≡ ok u → msg ≡ verack
  unfolding expect_verack
  expect_verack-eq-ok verack h = refl
  expect_verack-eq-ok _ h = cc

  -- What a handshake needs to succeed with the given height.
  pub record IsAgreed (self_nonce : ℕ) (version_sent : Result (Unit {0}))
      (first : Result (NetworkMessage H)) (verack_sent : Result (Unit {0}))
      (second : Result (NetworkMessage H)) (height : ℕ) : Type 0 where
    pub ver : VersionMessage
    pub out : version_sent ≡ ok tt
    pub theirs : first ≡ ok (version ver)
    pub other : ver.nonce ≢ self_nonce
    pub agreed : verack_sent ≡ ok tt
    pub answered : second ≡ ok verack
    pub tall : unsigned32 ver.start_height ≡ height

  -- The handshake succeeds exactly if both of our messages go out, the first message of the node
  -- is its version, with another nonce than ours, and the second its verack; the height it gives
  -- is the one in the version message, as a `u32`.
  pub node_handshake-IsAgreed :
      (self_nonce : ℕ) (version_sent : Result (Unit {0})) (first : Result (NetworkMessage H))
      (verack_sent : Result (Unit {0})) (second : Result (NetworkMessage H)) (height : ℕ)
      → (node_handshake self_nonce version_sent first verack_sent second ≡ ok height)
        ↔ IsAgreed self_nonce version_sent first verack_sent second height
  unfolding node_handshake expect_version expect_verack
  node_handshake-IsAgreed self_nonce version_sent first verack_sent second height = (
    (λ h.
        let (_, out, h1) = >>=-eq-ok version_sent _ h in
        let (first_msg, came, h2) = >>=-eq-ok first _ h1 in
        let (ver, is_version, h3) = >>=-eq-ok (expect_version first_msg) _ h2 in
        let (_, apart, h4) =
          >>=-eq-ok (guard (not (ver.nonce == self_nonce)) self_connection) _ h3 in
        let (_, agreed, h5) = >>=-eq-ok verack_sent _ h4 in
        let (second_msg, came', h6) = >>=-eq-ok second _ h5 in
        let (_, is_verack, h7) = >>=-eq-ok (expect_verack second_msg) _ h6 in
        let different = guard-other (ver.nonce == self_nonce) apart in
        record {
          ver = ver;
          out = out;
          theirs = came ∙ ap ok (expect_version-eq-ok first_msg ver is_version);
          other = λ e. ground (arith, different);
          agreed = agreed;
          answered = came' ∙ ap ok (expect_verack-eq-ok second_msg is_verack);
          tall = ok-injective h7;
        }),
    (λ a.
        let different : (a.ver.nonce == self_nonce) ≡ false = ground (arith, a.other) in
        rw (a.out, a.theirs, different, a.agreed, a.answered) (ap ok a.tall)),
  )
