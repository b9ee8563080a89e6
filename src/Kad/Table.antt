-- ===== src/Kad/Table.antt =====
-- kad_table.go: the routing table. The latency of a peer is the metrics library's, an argument; the
-- two callbacks are a log of events. The table's lock makes each method one step.
pub mod Homes
pub mod Split
pub mod NextBucket
pub mod Own
pub mod Update
use holochain.Base.{
  Bytes, ℕ, zero, suc, ◌+◌, ◌-◌, ◌*◌, List, [], ◌∷◌, ◌++◌, Bool, true, false, Option, none, some,
  ltb, leb, ◌==◌, if◌then◌else◌, length, get_elem?, set, take, bytes_equal,
}
use holochain.Base.Result.{Result, ok, err, panic, out_of_fuel, ◌>>=◌, or_panic}
use holochain.Hash.{Hash, hash_xor_distance}
use holochain.Kad.Bucket.{
  PeerId, Bucket, has, remove, move_to_front, push_front, pop_back, common_prefix_len, split,
}

pub data Event : Type 0 where
  peer_added peer_removed : PeerId → Event

pub record Table : Type 0 where
  pub local : PeerId
  pub max_latency : ℕ
  pub buckets : List Bucket
  pub bucketsize : ℕ
  pub events : List Event

-- `NewRoutingTable`: one empty bucket.
unfoldable pub new_routing_table : ℕ → PeerId → ℕ → Table
new_routing_table bucketsize local latency = record {
  local = local;
  max_latency = latency;
  buckets = [] ∷ [];
  bucketsize = bucketsize;
  events = [];
}

-- The bucket of a prefix length: the last one where the table has no bucket that far.
unfoldable pub bucket_id : ℕ → ℕ → ℕ
bucket_id buckets cpl = if leb buckets cpl then buckets - 1 else cpl

abbrev pub put_bucket : ℕ → Bucket → Table → Table
put_bucket i b rt = record rt { buckets = set rt.buckets i b }

abbrev pub notify : Event → Table → Table
notify e rt = record rt { events = rt.events ++ e ∷ [] }

-- The end of `nextBucket`, with the halves of the last bucket: `again` is the recursive call.
unfoldable pub after_split :
    (Table → Result (PeerId × Table)) → ℕ → Table → Bucket × Bucket → Result (PeerId × Table)
after_split again last rt (kept, moved) =
    let rt' : Table = record rt { buckets = set rt.buckets last kept ++ moved ∷ [] } in
    elim (ltb rt.bucketsize (length moved)) [
      | true ↦ again rt'
      | false ↦
          if ltb rt.bucketsize (length kept)
          then (do (p, rest) ← pop_back kept; ok (p, put_bucket last rest rt'))
          else ok ([], rt')
    ]

-- `nextBucket`: splits the last bucket, and again while the new one is too large.
unfoldable pub next_bucket : ℕ → Table → Result (PeerId × Table)
unfolding after_split
next_bucket zero rt = err out_of_fuel
next_bucket (suc fuel) rt =
    let last = length rt.buckets - 1 in
    or_panic (get_elem? rt.buckets last) >>= λ bucket.
    split last rt.local bucket >>= after_split (next_bucket fuel) last rt

-- More splits than there are bits in an id are never made.
abbrev pub split_fuel : Table → ℕ
split_fuel rt = 8 * length rt.local + 1

-- The end of `Update`, once a new peer stands at the front of bucket `i`.
unfoldable pub shrink : ℕ → Bucket → Table → Result Table
shrink i b rt =
    if ltb rt.bucketsize (length b)
    then if i == length rt.buckets - 1
      then (do (p, rt') ← next_bucket (split_fuel rt) rt; ok (notify (peer_removed p) rt'))
      else (do (p, rest) ← pop_back b; ok (notify (peer_removed p) (put_bucket i rest rt)))
    else ok rt

unfoldable pub update : (PeerId → ℕ) → PeerId → Table → Result Table
unfolding bucket_id has move_to_front push_front shrink
update latency p rt = do
  cpl ← common_prefix_len p rt.local
  let i = bucket_id (length rt.buckets) cpl
  bucket ← or_panic (get_elem? rt.buckets i)
  if has p bucket
      then (do moved ← move_to_front p bucket; ok (put_bucket i moved rt))
      else if ltb rt.max_latency (latency p)
      then ok rt
      else shrink i (push_front p bucket)
          (notify (peer_added p) (put_bucket i (push_front p bucket) rt))

unfoldable pub remove_peer : PeerId → Table → Result Table
unfolding bucket_id remove
remove_peer p rt = do
  cpl ← common_prefix_len p rt.local
  let i = bucket_id (length rt.buckets) cpl
  bucket ← or_panic (get_elem? rt.buckets i)
  ok (notify (peer_removed p) (put_bucket i (remove p bucket) rt))

unfoldable pub list_peers : List Bucket → List PeerId
list_peers [] = []
list_peers (b ∷ bs) = b ++ list_peers bs

unfoldable pub size : List Bucket → ℕ
size [] = 0
size (b ∷ bs) = length b + size bs

unfoldable pub is_empty : List Bucket → Bool
is_empty [] = true
is_empty (b ∷ bs) = if ltb 0 (length b) then false else is_empty bs

-- `copyPeersFromList`: the peers with their distances to the target.
unfoldable pub copy_peers : PeerId → List (PeerId × ℕ) → Bucket → Result (List (PeerId × ℕ))
copy_peers target arr [] = ok arr
copy_peers target arr (p ∷ b) = do
  d ← hash_xor_distance p target
  copy_peers target (arr ++ (p, d) ∷ []) b

-- `sort.Sort` by distance: an insertion sort. Equal distances are equal hashes, so the algorithm
-- does not show.
unfoldable pub insert_by_distance : PeerId × ℕ → List (PeerId × ℕ) → List (PeerId × ℕ)
insert_by_distance (p, d) [] = (p, d) ∷ []
insert_by_distance (p, d) ((q, k) ∷ arr) =
    if ltb k d then (q, k) ∷ insert_by_distance (p, d) arr else (p, d) ∷ (q, k) ∷ arr

unfoldable pub sort_by_distance : List (PeerId × ℕ) → List (PeerId × ℕ)
unfolding insert_by_distance
sort_by_distance [] = []
sort_by_distance (x ∷ arr) = insert_by_distance x (sort_by_distance arr)

abbrev pub peers_of : List (PeerId × ℕ) → List PeerId
peers_of [] = []
peers_of ((p, d) ∷ arr) = p ∷ peers_of arr

-- The neighbours of a bucket that is short of peers.
unfoldable pub add_neighbour :
    Bool → PeerId → ℕ → Table → List (PeerId × ℕ) → Result (List (PeerId × ℕ))
add_neighbour false id i rt arr = ok arr
add_neighbour true id i rt arr = do b ← or_panic (get_elem? rt.buckets i); copy_peers id arr b

unfoldable pub nearest_peers : Hash → ℕ → Table → Result (List PeerId)
unfolding bucket_id add_neighbour copy_peers sort_by_distance
nearest_peers hash count rt = do
  cpl ← common_prefix_len hash rt.local
  let i = bucket_id (length rt.buckets) cpl
  bucket ← or_panic (get_elem? rt.buckets i)
  arr ← copy_peers hash [] bucket
  let short = ltb (length arr) count
  arr1 ← add_neighbour (if short then ltb 0 i else false) hash (i - 1) rt arr
  arr2 ← add_neighbour (if short then ltb i (length rt.buckets - 1) else false) hash (i + 1) rt arr1
  ok (take count (peers_of (sort_by_distance arr2)))

-- `Find`: the empty id stands for nil.
unfoldable pub find : PeerId → Table → Result PeerId
unfolding nearest_peers
find id rt = do
  srch ← nearest_peers id 1 rt
  ok (elim srch [ [] ↦ [] | p ∷ ps ↦ if bytes_equal p id then p else [] ])

unfoldable pub nearest_peer : Hash → Table → Result PeerId
unfolding nearest_peers
nearest_peer hash rt = do peers ← nearest_peers hash 1 rt; ok (elim peers [ [] ↦ [] | p ∷ ps ↦ p ])
