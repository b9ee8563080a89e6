-- ===== src/Action/FindNode.antt =====
-- kad_rpc.go: `KademliaReceiver`, the peers that a node knows nearest to a hash.
use holochain.Base.{ℕ, List, [], ◌∷◌, Option, none, some, ◌==◌, if◌then◌else◌}
use holochain.Base.Result.{Result, ok, err, unexpected_body, not_in_protocol, ◌>>=◌}
use holochain.Hash.{Hash, equal}
use holochain.Kad.Bucket.{PeerId}
use holochain.Action.{Services, Holder}
use holochain.Action.Receive.{better_peers_for_hash, peer_infos}

abbrev pub find_node_request : ℕ
find_node_request = 16

-- A request with the hash that is looked for, if the body is one. The node itself is the answer if
-- the hash is that of its id.
unfoldable pub kademlia_receiver :
    Services → ℕ → PeerId → Option Hash → Holder → Result (List PeerId)
unfolding better_peers_for_hash peer_infos
kademlia_receiver s t from query n =
    if t == find_node_request
    then elim query [
      | none ↦ err unexpected_body
      | some h ↦
          if equal n.self h
          then ok (peer_infos s.has_address (n.self ∷ []))
          else (do closest ← better_peers_for_hash h from n; ok (peer_infos s.has_address closest))
    ]
    else err (not_in_protocol t)
