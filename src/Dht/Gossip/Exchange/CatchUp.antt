-- ===== src/Dht/Gossip/Exchange/CatchUp.antt =====
-- gossip.go: what `gossipWith` obtains from a peer whose `GossipReceiver` answers.
use holochain.Base.{
  ℕ, suc, ◌+◌, ◌-◌, ◌≤◌, List, [], ◌∷◌, ◌++◌, true, false, some, ◌≡◌, refl, arith, sym, length,
  get_elem?,
}
use mathlib.Core.List.{append-nil}
use holochain.Base.Map.{lookup, lookup-insert_same}
use holochain.Base.Result.{ok, no_such_idx, or_err-eq-ok}
use holochain.Kad.Bucket.{PeerId}
use holochain.Dht.Store.{Codec, Message, empty_db}
use holochain.Dht.Gossip.{
  or_zero, find_message, get_idx, get_idx_message, get_gossiper, update_gossiper,
  update_known_gossiper,
}
use holochain.Dht.Gossip.History.{Reaches}
use holochain.Dht.Gossip.Exchange.{
  Put, Order, Node, rune_string, ascend_puts, get_puts, sort_puts, gossip_receiver, gossip_with,
  take_puts,
}
use holochain.Dht.Gossip.Exchange.Log.{empty_db-IsOrdered, IsOrdered-Reaches}
use holochain.Dht.Gossip.Exchange.Puts.{AreReached, IsRun, sort_puts-IsRun}

-- The record of the peer rises by the number of puts, and the puts are queued.
pub take_puts-all :
    (id : PeerId) (puts : List Put) (node : Node)
    → ((take_puts false id puts node).puts ≡ node.puts ++ puts)
      × (get_gossiper id (take_puts false id puts node).db ≡ get_gossiper id node.db + length puts)
unfolding take_puts update_known_gossiper update_gossiper get_gossiper
take_puts-all id [] node = (sym (append-nil node.puts), omega arith)
take_puts-all id (p ∷ ps) node = (
  refl,
  ground (
    arith,
    lookup-insert_same id (or_zero (lookup id node.db.peer) + suc (length ps)) node.db.peer,
  ),
)

module _ (x : Codec) (o : Order) (me id : PeerId) (a b : Node) where
  -- If a peer's store is built from the empty one, no message of it is below the pivot of the
  -- ascent and the record of the peer is not ahead of its index, then `gossipWith` of that peer,
  -- not blocked and answered by its `GossipReceiver`, queues exactly the messages that were
  -- missed, in the order of their numbers, and raises the record to the peer's index.
  pub gossip_with-catches_up :
      Reaches x empty_db b.db
      → AreReached o (get_gossiper id a.db + 1) b.db.messages
      → get_gossiper id a.db ≤ get_idx b.db
      → (missed : List Put) × (new : Node) × (gossip_with false id
            (λ r. (gossip_receiver o me r b).0)
            a
          ≡ (ok tt, new))
        × (new.puts ≡ a.puts ++ missed)
        × (get_gossiper id new.db ≡ get_idx b.db)
        × (length missed ≡ get_idx b.db - get_gossiper id a.db)
        × ((i : ℕ) (m : Message)
            → get_idx_message (get_gossiper id a.db + 1 + i) b.db ≡ ok m
            → get_elem? missed i ≡ some (get_gossiper id a.db + 1 + i, m))
  unfolding gossip_with gossip_receiver get_puts IsRun get_idx get_idx_message
  gossip_with-catches_up built reached behind =
      let order = IsOrdered-Reaches x empty_db b.db built empty_db-IsOrdered in
      let since = get_gossiper id a.db + 1 in
      let missed = get_puts o since b.db in
      let (total, reads) =
        sort_puts-IsRun o since b.db.messages (omega arith) order.countdown reached in
      let (queued, record_of) = take_puts-all id missed a in
      (
        missed,
        take_puts false id missed a,
        refl,
        queued,
        omega (arith, record_of, total, order.total),
        omega (arith, total, order.total),
        λ i m h. reads i m (or_err-eq-ok (find_message (since + i) b.db.messages) no_such_idx h),
      )

  ascend_puts-none :
      (since : ℕ)
      → ((m : Message) → o.less (o.encoded m) (rune_string since) ≡ true)
      → (ms : List Put) → ascend_puts o since ms ≡ []
  unfolding ascend_puts
  ascend_puts-none since h [] = refl
  ascend_puts-none since h ((i, m) ∷ ms) = rw (h m) (ascend_puts-none since h ms)

  -- Where every message is below the pivot of the ascent, `gossipWith` queues nothing and changes
  -- nothing, so the next one asks for the same.
  pub gossip_with-stuck :
      ((m : Message) → o.less (o.encoded m) (rune_string (get_gossiper id a.db + 1)) ≡ true)
      → gossip_with false id (λ r. (gossip_receiver o me r b).0) a ≡ (ok tt, a)
  unfolding gossip_with gossip_receiver get_puts take_puts sort_puts
  gossip_with-stuck h = rw (ascend_puts-none (get_gossiper id a.db + 1) h b.db.messages) refl
