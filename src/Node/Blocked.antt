-- ===== src/Node/Blocked.antt =====
-- node.go and action.go: the block list after peers were blocked.
use holochain.Base.{
  List, [], ◌∷◌, Bool, true, false, some, ◌||◌, ◌≡◌, refl, arith, ◌∙◌, bytes_equal,
  bytes_equal_refl, bytes_equal_iff, if◌then◌else◌,
}
use holochain.Base.Map.{lookup-insert, lookup-delete}
use holochain.Base.Result.{ok}
use holochain.Kad.Bucket.{PeerId}
use holochain.Dht.Store.{Db, Message}
use holochain.Dht.Gossip.{get_gossiper, delete_gossiper}
use holochain.Dht.Gossip.Exchange.{PeerRecord, add_to_list}
use holochain.Action.{Services, Holder}
use holochain.Action.Messages.{blocked_list, block_peers, add_list}
use holochain.Node.{is_blocked, block}

-- The peer is one of the records.
unfoldable pub names : PeerId → List PeerRecord → Bool
names id [] = false
names id (r ∷ rs) = bytes_equal r.id id || names id rs

delete_gossiper-zero :
    (id other : PeerId) (db : Db)
    → get_gossiper other (delete_gossiper id db).1
      ≡ (if bytes_equal id other then 0 else get_gossiper other db)
unfolding get_gossiper delete_gossiper
delete_gossiper-zero id other db =
    ground (arith, lookup-delete id other db.peer, bytes_equal_iff id other)

pub is_blocked-block_peers :
    (id : PeerId) (rs : List PeerRecord) (n : Holder)
    → is_blocked id (block_peers rs n).blocked ≡ (names id rs || is_blocked id n.blocked)
unfolding is_blocked block block_peers names
is_blocked-block_peers id [] n = refl
is_blocked-block_peers id (r ∷ rs) n =
    is_blocked-block_peers id rs
      (record n { db = (delete_gossiper r.id n.db).1; blocked = block r.id n.blocked })
    ∙ ground (arith, lookup-insert r.id id true n.blocked)

pub get_gossiper-block_peers :
    (id : PeerId) (rs : List PeerRecord) (n : Holder)
    → get_gossiper id (block_peers rs n).db ≡ (if names id rs then 0 else get_gossiper id n.db)
unfolding block_peers names
get_gossiper-block_peers id [] n = refl
get_gossiper-block_peers id (r ∷ rs) n =
    get_gossiper-block_peers id rs
      (record n { db = (delete_gossiper r.id n.db).1; blocked = block r.id n.blocked })
    ∙ ground (arith, delete_gossiper-zero r.id id n.db)

-- After peers were added to the list of blocked ones, exactly they and the peers blocked before
-- are blocked, and the record of each of them as a gossiper is gone.
pub add_list-blocks :
    (s : Services) (m : Message) (rs : List PeerRecord) (n : Holder) (id : PeerId)
    → (add_to_list s.codec (some m) blocked_list rs n.db).0 ≡ ok tt
    → (is_blocked id (add_list s m blocked_list rs n).1.blocked
        ≡ (names id rs || is_blocked id n.blocked))
      × (get_gossiper id (add_list s m blocked_list rs n).1.db ≡ (
          if names id rs
          then 0
          else get_gossiper id (add_to_list s.codec (some m) blocked_list rs n.db).1))
unfolding add_list
add_list-blocks s m rs n id added =
    let n' : Holder = record n { db = (add_to_list s.codec (some m) blocked_list rs n.db).1 } in
    rw (added, add_list, bytes_equal_refl blocked_list)
      (is_blocked-block_peers id rs n', get_gossiper-block_peers id rs n')
