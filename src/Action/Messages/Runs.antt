-- ===== src/Action/Messages/Runs.antt =====
-- action.go, gossip.go and dht.go: the runs of a node that handles messages, retries and gossip.
use holochain.Base.{
  Bytes, ℕ, zero, suc, List, [], ◌∷◌, ◌≡◌, refl, subst, inl, inr, Bool-cases, Option-cases,
}
use holochain.Dht.Store.{Message, empty_db}
use holochain.Dht.Fates.{Fate, fate}
use holochain.Dht.Gossip.Index.{IsIndexed}
use holochain.Dht.Gossip.History.{here, Reaches-trans, Reaches-IsIndexed}
use holochain.Dht.Gossip.{have_fingerprint}
use holochain.Dht.Gossip.Exchange.{Put, gossip_put, handle_gossip_puts}
use holochain.Action.{Services, Holder}
use holochain.Action.Messages.{max_retries, action_receiver, retry_queue, retry_task}
use holochain.Action.Messages.Lives.{Turns, stays, Lives, starts, goes_on, action_receiver-Turns}
use holochain.Action.Messages.Changes.{
  Grows, gossiped, handle_gossiped, handle_gossiped-Grows, retry_queue-Grows, action_receiver-Grows,
}

module _ (s : Services) where
  -- What a node does: it handles a message, tries a waiting one again, or handles a gossiped put.
  pub data Step : Holder → Holder → Type 0 where
    receives : (m : Message) (k : ℕ) (n : Holder) → Step n (action_receiver s m k n).1
    retries : (n : Holder) → Step n (retry_task s n)
    gossips : (ps : List Put) (n : Holder) → Step n (handle_gossiped s ps n)

  pub data Runs : Holder → Holder → Type 0 where
    idle : (n : Holder) → Runs n n
    onward : (a b c : Holder) → Runs a b → Step b c → Runs a c

  pub Runs-Grows : (a b : Holder) → Runs a b → Grows s a.db b.db
  unfolding retry_task
  Runs-Grows a b (idle n) = here n.db
  Runs-Grows a b (onward c d e r (receives m k n)) =
      Reaches-trans s.codec c.db n.db _ (Runs-Grows c n r) (action_receiver-Grows s m k n)
  Runs-Grows a b (onward c d e r (retries n)) =
      Reaches-trans s.codec c.db n.db _ (Runs-Grows c n r) (retry_queue-Grows s n.retries n)
  Runs-Grows a b (onward c d e r (gossips ps n)) =
      Reaches-trans s.codec c.db n.db _ (Runs-Grows c n r) (handle_gossiped-Grows s ps n)

  -- Whatever sequence of messages, retries and gossiped puts a node handles, from an empty store
  -- on, its messages are numbered from 1 to the index without a gap and each fingerprint leads to
  -- a message with that fingerprint.
  pub Runs-IsIndexed : (a b : Holder) → Runs a b → a.db ≡ empty_db → IsIndexed s.codec b.db
  Runs-IsIndexed a b r e =
      Reaches-IsIndexed s.codec b.db (subst (λ d. Grows s d b.db) e (Runs-Grows a b r))

  -- The messages that a step handles, before those that were handled already.
  abbrev pub of_queue : List (Message × ℕ) → List Message → List Message
  of_queue [] ms = ms
  of_queue ((m, zero) ∷ rs) ms = ms
  of_queue ((m, suc k) ∷ rs) ms = m ∷ ms

  abbrev pub of_puts : List Put → List Message → List Message
  of_puts [] ms = ms
  of_puts ((i, m) ∷ ps) ms = of_puts ps (m ∷ ms)

  abbrev pub of_step : {a b : Holder} → Step a b → List Message → List Message
  of_step (receives m k n) ms = m ∷ ms
  of_step (retries n) ms = of_queue n.retries ms
  of_step (gossips ps n) ms = of_puts ps ms

  abbrev pub handled : {a b : Holder} → Runs a b → List Message
  handled (idle n) = []
  handled (onward a b c r step) = of_step step (handled r)

  module _ (j : Bytes) (f : Fate) where
    -- What the hash has gone through on a node.
    abbrev LivesTo : List Message → Holder → Type 0
    LivesTo ms n = Lives s j ms f (fate j n.db)

    queue-Lives :
        (rs : List (Message × ℕ)) (ms : List Message) (n : Holder)
        → LivesTo ms n
        → LivesTo (of_queue rs ms) (retry_queue s rs n)
    unfolding retry_queue
    queue-Lives [] ms n l = l
    queue-Lives ((m, zero) ∷ rs) ms n l = l
    queue-Lives ((m, suc k) ∷ rs) ms n l =
        goes_on m ms f (fate j n.db) _ l (action_receiver-Turns s m j k (record n { retries = rs }))

    gossip_put-Turns :
        (i : ℕ) (m : Message) (n : Holder)
        → Turns s m m.body j
            (fate j n.db)
            (fate j (gossip_put s.codec (λ n. n.db) (gossiped s) (i, m) n).db)
    unfolding gossip_put
    gossip_put-Turns i m n = elim (Option-cases (s.codec.fingerprint m)) [
      | inl e ↦ rw (e, gossip_put) (stays refl)
      | inr (g, e) ↦ elim (Bool-cases (have_fingerprint s.codec g n.db)) [
        | inl known ↦ rw (e, gossip_put, known) (stays refl)
        | inr unknown ↦ rw (e, gossip_put, unknown) (action_receiver-Turns s m j max_retries n)
      ]
    ]

    puts-Lives :
        (ps : List Put) (ms : List Message) (n : Holder)
        → LivesTo ms n
        → LivesTo (of_puts ps ms) (handle_gossiped s ps n)
    unfolding handle_gossip_puts
    puts-Lives [] ms n l = l
    puts-Lives ((i, m) ∷ ps) ms n l =
        puts-Lives ps (m ∷ ms) _ (goes_on m ms f (fate j n.db) _ l (gossip_put-Turns i m n))

  -- Whatever a node handles, each message in turn leaves what the store has of a hash as it is, or
  -- does what its body allows: a put stores what its source sends, encoded, as live or as
  -- rejected, a mod marks the hash that it names as modified and a del the hash that its source's
  -- entry names as deleted, if that hash is stored, with its value kept.
  pub Runs-Lives :
      (j : Bytes) (a b : Holder) (r : Runs a b) → Lives s j (handled r) (fate j a.db) (fate j b.db)
  unfolding retry_task
  Runs-Lives j a b (idle n) = starts (fate j n.db)
  Runs-Lives j a b (onward c d e r (receives m k n)) =
      goes_on m (handled r) (fate j c.db) (fate j n.db) _ (Runs-Lives j c n r)
        (action_receiver-Turns s m j k n)
  Runs-Lives j a b (onward c d e r (retries n)) =
      queue-Lives j (fate j c.db) n.retries (handled r) n (Runs-Lives j c n r)
  Runs-Lives j a b (onward c d e r (gossips ps n)) =
      puts-Lives j (fate j c.db) ps (handled r) n (Runs-Lives j c n r)
