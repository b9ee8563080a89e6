-- ===== src/Tests/Exchanges.antt =====
-- The theorems on gossip, on a node that missed one put.
use holochain.Base.{
  Bytes, ℕ, ◌+◌, ◌-◌, ◌≤◌, ◌≡◌, refl, List, [], ◌∷◌, ◌++◌, true, false, some, ltb, leb, ◌&&◌,
  if◌then◌else◌, codes, arith, length, get_elem?, bytes_equal,
}
use holochain.Base.Map.{lookup}
use holochain.Base.Result.{ok}
use holochain.Kad.Bucket.{PeerId}
use holochain.Dht.Store.{Db, Message, put_req, empty_db, put, status_live}
use holochain.Dht.Gossip.{get_idx, get_idx_message, get_gossiper}
use holochain.Dht.Gossip.Changes.{by_put}
use holochain.Dht.Gossip.History.{Reaches, here, more}
use holochain.Dht.Gossip.Exchange.{Put, Order, Node, rune_string, gossip_receiver, gossip_with}
use holochain.Dht.Gossip.Exchange.Puts.{AreReached}
use holochain.Dht.Gossip.Exchange.CatchUp.{gossip_with-catches_up}
use holochain.Tests.Toy.{toy_codec}

abbrev digit_value : Bytes → ℕ
digit_value (b ∷ []) = if leb 48 b && ltb b 58 then b - 48 else 0
digit_value _ = 0

-- Numbers in the order of `buntdb.IndexInt`, where encoded messages are not numbers.
abbrev toy_order : Order
toy_order = record {
  less = λ a b. ltb (digit_value a) (digit_value b);
  encoded = λ m. 20 ∷ 255 ∷ [];
}

abbrev us : PeerId
us = codes "us"

abbrev them : PeerId
them = codes "them"

abbrev news : Message
news = record { type = 1; time = codes "t1"; from = them; body = put_req (codes "Qa") }

abbrev their_db : Db
their_db =
    (put toy_codec (some news) (codes "post") (codes "Qa") them (codes "hi") status_live empty_db).1

abbrev fresh : Node
fresh = record { db = empty_db; puts = []; withs = [] }

abbrev ahead : Node
ahead = record { db = their_db; puts = []; withs = [] }

their_db-Reaches : Reaches toy_codec empty_db their_db
their_db-Reaches =
    more empty_db empty_db their_db (here empty_db)
      (by_put (some news) (codes "post") (codes "Qa") them (codes "hi") status_live empty_db)

abbrev recorded : Node
recorded = record { db = record empty_db { peer = (them, 48) ∷ [] }; puts = []; withs = [] }

first_pivot : AreReached toy_order (get_gossiper them fresh.db + 1) ahead.db.messages
unfolding rune_string get_gossiper lookup put
first_pivot = (refl, tt)

not_behind : get_gossiper them fresh.db ≤ get_idx ahead.db
unfolding get_gossiper get_idx put lookup
not_behind = omega arith

gossip_with-catches_up_example :
    (missed : List Put) × (new : Node) × (gossip_with false them
        (λ r. (gossip_receiver toy_order us r ahead).0)
        fresh
      ≡ (ok tt, new))
    × (new.puts ≡ fresh.puts ++ missed)
    × (get_gossiper them new.db ≡ get_idx ahead.db)
    × (length missed ≡ get_idx ahead.db - get_gossiper them fresh.db)
    × ((i : ℕ) (m : Message)
        → get_idx_message (get_gossiper them fresh.db + 1 + i) ahead.db ≡ ok m
        → get_elem? missed i ≡ some (get_gossiper them fresh.db + 1 + i, m))
gossip_with-catches_up_example =
    gossip_with-catches_up toy_codec toy_order us them fresh ahead their_db-Reaches first_pivot
      not_behind

ninth_pivot :
    (m : Message)
    → toy_order.less (toy_order.encoded m) (rune_string (get_gossiper them recorded.db + 1)) ≡ true
unfolding rune_string get_gossiper lookup bytes_equal
ninth_pivot m = refl
