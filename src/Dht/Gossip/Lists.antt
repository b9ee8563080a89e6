-- ===== src/Dht/Gossip/Lists.antt =====
-- gossip.go: `getList`, the peers of a list with their warrants.
use holochain.Base.{Bytes, List, [], ◌∷◌, Option, none, some, get_elem?, bytes_equal, if◌then◌else◌}
use holochain.Base.Map.{Map}
use holochain.Base.Result.{Result, ok, or_panic, ◌>>=◌}
use holochain.Kad.Bucket.{PeerId}
use holochain.Dht.Store.{Db}
use holochain.Dht.Links.{split_colon}
use holochain.Dht.Gossip.Exchange.{PeerRecord}

-- The ascent ends where `decode` of an id fails; here it takes the order of the store, where the
-- index sorts by the warrants.
unfoldable pub ascend_list : (Bytes → Option PeerId) → Bytes → Map Bytes → Result (List PeerRecord)
ascend_list decode list_type [] = ok []
ascend_list decode list_type ((key, value) ∷ list) = do
  let rest = ascend_list decode list_type list
  t ← or_panic (get_elem? (split_colon [] key) 0)
  (if bytes_equal t list_type
      then (do
        k ← or_panic (get_elem? (split_colon [] key) 1)
        elim (decode k) [
          | none ↦ ok []
          | some id ↦ (do rs ← rest; ok (record { id = id; warrant = value } ∷ rs))
        ])
      else rest)

unfoldable pub get_list : (Bytes → Option PeerId) → Bytes → Db → Result (List PeerRecord)
unfolding ascend_list
get_list decode list_type db = ascend_list decode list_type db.list
