-- ===== src/Node.antt =====
-- node.go: the codes by which errors travel between nodes, the block list, and the choice of peers
-- that are active.
pub mod Errors
pub mod Blocked
use holochain.Base.{
  Bytes, ℕ, zero, suc, ◌+◌, List, [], ◌∷◌, ◌++◌, Bool, true, false, Option, none, some, ◌==◌, leb,
  if◌then◌else◌, length,
}
use holochain.Base.Map.{Map, lookup, insert, delete}
use holochain.Base.Result.{
  Error, hash_not_found, hash_deleted, hash_modified, hash_rejected, link_not_found,
  entry_type_mismatch, blocked_listed,
}
use holochain.Kad.Bucket.{PeerId}
use holochain.Dht.Gossip.Exchange.{PeerRecord}

pub record ErrorResponse : Type 0 where
  pub code : ℕ
  pub message : Bytes

abbrev pub coded : ℕ → ErrorResponse
coded code = record { code = code; message = [] }

-- `NewErrorResponse`, with the texts of the errors.
unfoldable pub new_error_response : (Error → Bytes) → Error → ErrorResponse
new_error_response error_text hash_not_found = coded 1
new_error_response error_text hash_deleted = coded 2
new_error_response error_text hash_modified = coded 3
new_error_response error_text hash_rejected = coded 4
new_error_response error_text link_not_found = coded 5
new_error_response error_text entry_type_mismatch = coded 6
new_error_response error_text blocked_listed = coded 7
new_error_response error_text e = record { code = 0; message = error_text e }

-- What the other node has: one of the error values, or a new error with a text.
pub data Received : Type 0 where
  known : Error → Received
  unknown : Bytes → Received

unfoldable pub decode_response_error : ErrorResponse → Received
decode_response_error r =
    if r.code == 1
    then known hash_not_found
    else if r.code == 2
    then known hash_deleted
    else if r.code == 3
    then known hash_modified
    else if r.code == 4
    then known hash_rejected
    else if r.code == 5
    then known link_not_found
    else if r.code == 6
    then known entry_type_mismatch
    else if r.code == 7
    then known blocked_listed
    else unknown r.message

unfoldable pub is_blocked : PeerId → Map Bool → Bool
is_blocked addr blockedlist = elim (lookup addr blockedlist) [ none ↦ false | some b ↦ b ]

unfoldable pub block : PeerId → Map Bool → Map Bool
block addr blockedlist = insert addr true blockedlist

unfoldable pub unblock : PeerId → Map Bool → Map Bool
unblock addr blockedlist = delete addr blockedlist

unfoldable pub block_records : List PeerRecord → Map Bool → Map Bool
unfolding block
block_records [] blockedlist = blockedlist
block_records (r ∷ rs) blockedlist = block_records rs (block r.id blockedlist)

unfoldable pub init_blocked_list : List PeerRecord → Map Bool
unfolding block_records
init_blocked_list records = block_records records []

-- The loop of `filterInactviePeers`: it ends when `max` peers are found.
unfoldable pub active_peers : (PeerId → Bool) → ℕ → ℕ → List PeerId → List PeerId
active_peers is_active max i [] = []
active_peers is_active max i (p ∷ ps) =
    let rest = active_peers is_active max (suc i) ps in
    let others = active_peers is_active max i ps in
    if is_active p then (if suc i == max then p ∷ [] else p ∷ rest) else others

unfoldable pub filter_inactive_peers : (PeerId → Bool) → List PeerId → ℕ → List PeerId
unfolding active_peers
filter_inactive_peers is_active peers_in max =
    active_peers is_active (if leb max 0 then length peers_in else max) 0 peers_in
