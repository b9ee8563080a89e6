-- ===== src/Dht/Gossip/Exchange.antt =====
-- gossip.go: how two nodes exchange the changes that one of them missed, and the peer lists.
pub mod Log
pub mod Puts
pub mod CatchUp
use holochain.Base.{
  Bytes, ℕ, zero, suc, ◌+◌, ◌*◌, ◌/◌, ◌%◌, List, [], ◌∷◌, ◌++◌, Bool, true, false, not, ◌&&◌, ◌||◌,
  Option, none, some, leb, ltb, if◌then◌else◌, length, bytes_equal,
}
use holochain.Base.Map.{Map, lookup, insert}
use holochain.Base.Result.{
  Error, Result, ok, err, panic, not_in_protocol, expected_gossip_request, ◌>>=◌,
}
use holochain.Kad.Bucket.{PeerId}
use holochain.Dht.Store.{Db, Tx, Codec, Message, db_update, inc_idx}
use holochain.Dht.Gossip.{get_idx, get_gossiper, update_known_gossiper, have_fingerprint}

abbrev pub Put : Type 0
Put = ℕ × Message

-- What the ascent of an index needs of other packages: `buntdb.IndexInt`, the order of the index
-- "idx", and the text that `ByteEncoder` makes of a message, the value of its key.
pub record Order : Type 0 where
  pub less : Bytes → Bytes → Bool
  pub encoded : Message → Bytes

-- `string(i)` of an integer: the UTF-8 text of the code point with that number.
unfoldable pub rune_string : ℕ → Bytes
rune_string r =
    if ltb r 128
    then r ∷ []
    else if ltb r 2048
    then (192 + r / 64) ∷ (128 + r % 64) ∷ []
    else if (leb 55296 r && ltb r 57344) || leb 1114112 r
    then 239 ∷ 191 ∷ 189 ∷ []
    else if ltb r 65536
    then (224 + r / 4096) ∷ (128 + r / 64 % 64) ∷ (128 + r % 64) ∷ []
    else (240 + r / 262144) ∷ (128 + r / 4096 % 64) ∷ (128 + r / 64 % 64) ∷ (128 + r % 64) ∷ []

-- `sort.Slice` by index.
unfoldable pub insert_put : Put → List Put → List Put
insert_put p [] = p ∷ []
insert_put (i, m) ((j, n) ∷ ps) =
    let rest = insert_put (i, m) ps in if leb i j then (i, m) ∷ (j, n) ∷ ps else (j, n) ∷ rest

unfoldable pub sort_puts : List Put → List Put
unfolding insert_put
sort_puts [] = []
sort_puts (p ∷ ps) = insert_put p (sort_puts ps)

-- What a node keeps for gossip: the store, the puts to handle (`gossipPuts`) and the peers to
-- gossip with (`gchan`).
pub record Node : Type 0 where
  pub db : Db
  pub puts : List Put
  pub withs : List PeerId

pub data Request : Type 0 where
  gossip_req : (my_idx your_idx : ℕ) → Request
  other_body : Request
  other_type : ℕ → Request

module _ (o : Order) where
  -- The ascent from the pivot `string(since)`: the messages whose values are not below it.
  unfoldable pub ascend_puts : ℕ → List Put → List Put
  unfolding rune_string
  ascend_puts since [] = []
  ascend_puts since ((i, m) ∷ ms) =
      let rest = ascend_puts since ms in
      if not (o.less (o.encoded m) (rune_string since)) && leb since i then (i, m) ∷ rest else rest

  unfoldable pub get_puts : ℕ → Db → List Put
  unfolding ascend_puts sort_puts
  get_puts since db = sort_puts (ascend_puts since db.messages)

  -- `GossipReceiver`: the puts that are asked for, and a request to gossip back if the sender has
  -- more than is recorded of it.
  unfoldable pub gossip_receiver : PeerId → Request → Node → Result (List Put) × Node
  unfolding get_puts get_gossiper
  gossip_receiver from (gossip_req my_idx your_idx) node = (
    ok (get_puts your_idx node.db),
    if ltb (get_gossiper from node.db) my_idx
        then record node { withs = node.withs ++ from ∷ [] }
        else node,
  )
  gossip_receiver from other_body node = (err expected_gossip_request, node)
  gossip_receiver from (other_type t) node = (err (not_in_protocol t), node)

abbrev pub request : PeerId → Db → Request
request id db = gossip_req (get_idx db) (get_gossiper id db + 1)

-- The reply of `gossipWith`: the puts are queued, and the record of the peer rises by their number.
unfoldable pub take_puts : Bool → PeerId → List Put → Node → Node
unfolding get_gossiper update_known_gossiper
take_puts blocked id [] node = node
take_puts blocked id (p ∷ ps) node = record node {
  db = update_known_gossiper blocked id (get_gossiper id node.db + length (p ∷ ps)) node.db;
  puts = node.puts ++ p ∷ ps;
}

-- `gossipWith`, told whether the peer is on the block list, and what `Send` does.
unfoldable pub gossip_with :
    Bool → PeerId → (Request → Result (List Put)) → Node → Result (Unit {0}) × Node
unfolding take_puts get_idx get_gossiper
gossip_with blocked id send node = elim (send (request id node.db)) [
  | ok puts ↦ (ok tt, take_puts blocked id puts node)
  | err e ↦ (err e, node)
  | panic ↦ (panic, node)
]

-- What handles puts: a node with a store, and its `ActionReceiver`.
module _ {A : Type 0} (x : Codec) (db_of : A → Db) (receiver : Message → A → A) where
  -- `gossipPut`: a put that is not known yet is given to the receiver.
  unfoldable pub gossip_put : Put → A → A
  unfolding have_fingerprint
  gossip_put (i, m) a = elim (x.fingerprint m) [
    | none ↦ a
    | some f ↦ if have_fingerprint x f (db_of a) then a else receiver m a
  ]

  -- `HandleGossipPuts`: the puts that are sent until the channel is closed.
  unfoldable pub handle_gossip_puts : List Put → A → A
  unfolding gossip_put
  handle_gossip_puts [] a = a
  handle_gossip_puts (p ∷ ps) a = handle_gossip_puts ps (gossip_put p a)

-- `addToList` of the block list: the warrant of each peer.
pub record PeerRecord : Type 0 where
  pub id : PeerId
  pub warrant : Bytes

abbrev pub list_key : Bytes → PeerId → Bytes
list_key type id = type ++ b':' ∷ id

unfoldable pub set_records : Bytes → List PeerRecord → Map Bytes → Map Bytes
set_records type [] list = list
set_records type (r ∷ rs) list = set_records type rs (insert (list_key type r.id) r.warrant list)

module _ (x : Codec) where
  unfoldable pub add_to_list_tx : Option Message → Bytes → List PeerRecord → Tx
  unfolding set_records inc_idx
  add_to_list_tx m type records db = do
    db' ← inc_idx x m db
    ok (record db' { list = set_records type records db'.list })

  unfoldable pub add_to_list :
      Option Message → Bytes → List PeerRecord → Db → Result (Unit {0}) × Db
  unfolding add_to_list_tx db_update
  add_to_list m type records = db_update (add_to_list_tx m type records)
