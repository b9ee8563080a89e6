-- ===== src/Dht/Gossip/Peers.antt =====
-- gossip.go: `updateGossiper` and `getGossiper`.
use Prim.Native.Nat.{max}
use holochain.Base.{ℕ, bytes_equal, bytes_equal_iff, if◌then◌else◌, ◌≡◌, arith}
use holochain.Base.Map.{lookup-insert}
use holochain.Kad.Bucket.{PeerId}
use holochain.Dht.Store.{Db}
use holochain.Dht.Gossip.{get_gossiper, update_gossiper}

-- `updateGossiper` sets the index of its peer to the maximum of the old and the new one and leaves
-- every other peer's.
pub get_gossiper-update_gossiper :
    (id other : PeerId) (n : ℕ) (db : Db)
    → get_gossiper other (update_gossiper id n db)
      ≡ (if bytes_equal id other then max n (get_gossiper id db) else get_gossiper other db)
unfolding get_gossiper update_gossiper
get_gossiper-update_gossiper id other n db =
    ground (arith, lookup-insert id other n db.peer, bytes_equal_iff id other)
