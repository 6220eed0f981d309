-- ===== src/Indexer/System/Delivery.antt =====
-- What the threads pass to one another arrives, in order (vault-indexer/src/indexer/mod.rs,
-- vault-indexer/src/indexer/node.rs).
use mathlib.Core.Path.{subst}
use mathlib.Core.List.{append_assoc, append-nil, map-append}
use mutinynet_indexer.Common.{ℕ, ◌≡◌, refl, sym, ap, ◌∙◌, Bool, List, [], ◌∷◌, ◌++◌, map}
use mutinynet_indexer.Cache.Block.{BlockHeader}
use mutinynet_indexer.Db.Vault.Invariant.{IsConsistent}
use mutinynet_indexer.Indexer.{Indexer}
use mutinynet_indexer.Indexer.Blocks.Rows.{IsNews}
use mutinynet_indexer.Indexer.Event.{
  Event, handshaked, disconnected, incoming_message, outcoming_message, new_transaction,
  new_unit_transaction,
}
use mutinynet_indexer.Indexer.Run.Announce.{on_event-Announces}
use mutinynet_indexer.Indexer.System.{
  System, started, outgoing, passed, IsFromNode, Dispatches, dispatches, Serves, receives, writes,
  passes_by, Reacts, takes, announces, sends, Step, dispatcher, node, main, Runs, start, later,
}
use mutinynet_indexer.P2p.{NetworkMessage}
use mutinynet_indexer.Vault.Bitcoin.{Script}
use mutinynet_indexer.Vault.Runes.{Ordinals}

ruleset regroup = (append_assoc, append-nil)

module _ {H : Type 0} where
  outgoing-append : (es fs : List (Event H)) → outgoing (es ++ fs) ≡ outgoing es ++ outgoing fs
  unfolding outgoing
  outgoing-append [] fs = refl
  outgoing-append (outcoming_message msg ∷ es) fs = ap (λ l. msg ∷ l) (outgoing-append es fs)
  outgoing-append (_ ∷ es) fs = outgoing-append es fs

  passed-append : (es fs : List (Event H)) → passed (es ++ fs) ≡ passed es ++ passed fs
  unfolding passed
  passed-append [] fs = refl
  passed-append (new_transaction _ ∷ es) fs = passed-append es fs
  passed-append (new_unit_transaction _ ∷ es) fs = passed-append es fs
  passed-append (e ∷ es) fs = ap (λ l. e ∷ l) (passed-append es fs)

  -- New transactions neither ask to send nor come through the channel.
  IsNews-alone :
      (e : Event H) (rest : List (Event H))
      → IsNews (e ∷ rest)
      → (outgoing (e ∷ []) ≡ []) × (passed (e ∷ []) ≡ []) × IsNews rest
  unfolding outgoing passed
  IsNews-alone (new_transaction _) rest n = (refl, refl, n)
  IsNews-alone (new_unit_transaction _) rest n = (refl, refl, n)
  IsNews-alone _ rest n = absurd n

  IsFromNode-alone : (e : Event H) → IsFromNode e → outgoing (e ∷ []) ≡ []
  unfolding outgoing
  IsFromNode-alone (handshaked _) i = refl
  IsFromNode-alone disconnected i = refl
  IsFromNode-alone (incoming_message _) i = refl
  IsFromNode-alone _ i = absurd i

  -- What is on the way to the socket, and what is on the way to the main loop.
  abbrev to_node : System H → List (NetworkMessage H)
  to_node s = outgoing s.node_queue ++ (outgoing s.channel ++ outgoing s.indexer.sent)

  abbrev to_main : System H → List (Event H)
  to_main s = passed s.main_queue ++ passed s.channel

  -- Each message that the main loop asked for was tried once or is on its way, in order, and so is
  -- each event of the channel for the main loop.
  pub record IsDelivered (s : System H) : Type 0 where
    pub consistent : IsConsistent s.indexer.database.vaults
    pub news : IsNews s.indexer.events_bus
    pub messages : map (λ w. w.0) s.writes ++ to_node s ≡ s.asked
    pub events : passed s.handled ++ to_main s ≡ passed s.posted

  Dispatches-IsDelivered :
      {capacity : ℕ} (s t : System H) → Dispatches capacity s t → IsDelivered s → IsDelivered t
  Dispatches-IsDelivered s t (dispatches e rest eq room) d = record {
    consistent = d.consistent;
    news = d.news;
    messages =
        ap (λ l. map (λ w. w.0) s.writes ++ l)
          (rw (outgoing-append s.node_queue (e ∷ []), eq, outgoing-append (e ∷ []) rest)
            (simp regroup))
        ∙ d.messages;
    events =
        ap (λ l. passed s.handled ++ l)
          (rw (passed-append s.main_queue (e ∷ []), eq, passed-append (e ∷ []) rest) (simp regroup))
        ∙ d.events;
  }

  Serves-IsDelivered :
      {capacity : ℕ} (s t : System H) → Serves capacity s t → IsDelivered s → IsDelivered t
  unfolding outgoing
  Serves-IsDelivered s t (receives e from_node follows room) d = record {
    consistent = d.consistent;
    news = d.news;
    messages =
        rw (outgoing-append s.channel (e ∷ []), IsFromNode-alone e from_node)
          (simp (regroup, d.messages));
    events =
        rw (passed-append s.channel (e ∷ []), passed-append s.posted (e ∷ []), ← d.events)
          (simp regroup);
  }
  Serves-IsDelivered s t (writes msg done rest eq) d = record {
    consistent = d.consistent;
    news = d.news;
    messages = rw (map-append (λ (w : NetworkMessage H × Bool). w.0) s.writes ((msg, done) ∷ [])) (
        append_assoc (map (λ w. w.0) s.writes) (msg ∷ []) _
        ∙ ap
            (λ l.
              map (λ w. w.0) s.writes
              ++ (outgoing l ++ (outgoing s.channel ++ outgoing s.indexer.sent)))
            (sym eq)
        ∙ d.messages);
    events = d.events;
  }
  Serves-IsDelivered s t (passes_by e rest eq nothing) d = record {
    consistent = d.consistent;
    news = d.news;
    messages =
        ap (λ l. map (λ w. w.0) s.writes ++ (l ++ (outgoing s.channel ++ outgoing s.indexer.sent)))
          (ap (λ l. l ++ outgoing rest) (sym nothing)
            ∙ sym (outgoing-append (e ∷ []) rest)
            ∙ ap outgoing (sym eq))
        ∙ d.messages;
    events = d.events;
  }

module _ {H : Type 0} ⦃b : BlockHeader H⦄ ⦃c : Script⦄ ⦃o : Ordinals⦄ where
  Reacts-IsDelivered :
      {capacity fuel : ℕ} (s t : System H)
      → Reacts capacity fuel s t
      → IsDelivered s
      → IsDelivered t
  unfolding outgoing
  Reacts-IsDelivered {fuel = fuel} s _ (takes e rest t eq no_sent no_bus ran) d =
      let (es, bus, scan) = on_event-Announces fuel e s.indexer t d.consistent ran in
      record {
        consistent = scan.consistent;
        news = subst IsNews (sym (bus ∙ ap (λ l. l ++ es) no_bus)) scan.news;
        messages = rw (← d.messages, no_sent) (simp regroup);
        events = rw (passed-append s.handled (e ∷ [])) (
            append_assoc (passed s.handled) (passed (e ∷ [])) _
            ∙ ap (λ l. passed s.handled ++ l)
                (sym (append_assoc (passed (e ∷ [])) (passed rest) (passed s.channel))
                  ∙ ap (λ l. l ++ passed s.channel)
                      (sym (passed-append (e ∷ []) rest) ∙ ap passed (sym eq)))
            ∙ d.events);
      }
  Reacts-IsDelivered s t (announces e rest eq room) d =
      let (asks_nothing, passes_nothing, news) = IsNews-alone e rest (subst IsNews eq d.news) in
      record {
        consistent = d.consistent;
        news = news;
        messages =
            rw (outgoing-append s.node_queue (e ∷ []), asks_nothing) (simp (regroup, d.messages));
        events =
            rw (passed-append s.main_queue (e ∷ []), passes_nothing) (simp (regroup, d.events));
      }
  Reacts-IsDelivered s t (sends e rest eq room) d = record {
    consistent = d.consistent;
    news = d.news;
    messages =
        ap (λ l. map (λ w. w.0) s.writes ++ (outgoing s.node_queue ++ l))
          (rw (outgoing-append s.channel (e ∷ []), eq, outgoing-append (e ∷ []) rest)
            (simp regroup))
        ∙ d.messages;
    events =
        rw (passed-append s.channel (e ∷ []), passed-append s.posted (e ∷ []), ← d.events)
          (simp regroup);
  }

  Step-IsDelivered :
      {capacity fuel : ℕ} (s t : System H) → Step capacity fuel s t → IsDelivered s → IsDelivered t
  Step-IsDelivered s t (dispatcher step) = Dispatches-IsDelivered s t step
  Step-IsDelivered s t (node step) = Serves-IsDelivered s t step
  Step-IsDelivered s t (main step) = Reacts-IsDelivered s t step

  Runs_from-IsDelivered :
      {capacity fuel : ℕ} (s t : System H) → IsDelivered s → Runs capacity fuel s t → IsDelivered t
  Runs_from-IsDelivered s t d start = d
  Runs_from-IsDelivered s t d (later {t = u} before step) =
      Step-IsDelivered u t step (Runs_from-IsDelivered s u d before)

  -- From the start of an indexer with consistent vault tables, whatever turns the threads take: the
  -- messages that the main loop has asked for are those that the node worker tried to write, once
  -- each, followed by those on their way to it, in order; the events put into the channel are those
  -- that the main loop has taken, followed by those on their way to it, in order; the vault tables
  -- are consistent, and what is left to broadcast are new transactions alone.
  pub Runs-IsDelivered :
      (capacity fuel : ℕ) (s : Indexer H) (t : System H)
      → IsConsistent s.database.vaults
      → Runs capacity fuel (started s) t
      → IsDelivered t
  unfolding outgoing passed
  Runs-IsDelivered capacity fuel s t k r =
      Runs_from-IsDelivered (started s) t
        (record { consistent = k; news = tt; messages = refl; events = refl }) r
