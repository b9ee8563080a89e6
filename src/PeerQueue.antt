-- ===== src/PeerQueue.antt =====
-- peerqueue/distance.go: the queue of peers by their distance from a hash, on container/heap, whose
-- `Push` and `Pop` it calls.
pub mod Slots
pub mod Up
pub mod Down
pub mod Order
pub mod Sorted
pub mod Channel
use holochain.Base.{
  Bytes, ℕ, zero, suc, ◌+◌, ◌-◌, ◌*◌, ◌/◌, List, [], ◌∷◌, ◌++◌, Bool, true, false, ltb, ◌==◌,
  if◌then◌else◌, length, get_elem?, set, take,
}
use holochain.Base.Result.{Result, ok, err, panic, out_of_fuel, ◌>>=◌, or_panic}
use holochain.Hash.{Hash, hash_xor_distance}

pub record PeerMetric : Type 0 where
  pub peer : Bytes
  pub metric : ℕ

pub record DistancePq : Type 0 where
  pub origin : Hash
  pub heap : List PeerMetric

unfoldable pub less : List PeerMetric → ℕ → ℕ → Result Bool
less ph i j = do
  x ← or_panic (get_elem? ph i)
  y ← or_panic (get_elem? ph j)
  ok (ltb x.metric y.metric)

unfoldable pub swap : List PeerMetric → ℕ → ℕ → Result (List PeerMetric)
swap ph i j = do
  x ← or_panic (get_elem? ph i)
  y ← or_panic (get_elem? ph j)
  ok (set (set ph i y) j x)

-- `(j - 1) / 2`, which is 0 at the root.
abbrev pub parent : ℕ → ℕ
parent j = (j - 1) / 2

unfoldable pub up : ℕ → List PeerMetric → ℕ → Result (List PeerMetric)
unfolding less swap
up zero h j = err out_of_fuel
up (suc k) h j =
    let rise : Result (List PeerMetric) = (do b ← swap h (parent j) j; up k b (parent j)) in
    let step : Result (List PeerMetric) = (do
      below ← less h j (parent j)
      (if below then rise else ok h)) in
    if parent j == j then ok h else step

-- The child that `down` compares with entry `i`, below the bound `n`.
unfoldable pub lower_child : List PeerMetric → ℕ → ℕ → Result ℕ
unfolding less
lower_child h i n =
    if ltb (2 * i + 2) n
    then (do right ← less h (2 * i + 2) (2 * i + 1); ok (if right then 2 * i + 2 else 2 * i + 1))
    else ok (2 * i + 1)

unfoldable pub down : ℕ → List PeerMetric → ℕ → ℕ → Result (List PeerMetric)
unfolding lower_child less swap
down zero h i n = err out_of_fuel
down (suc k) h i n =
    let step : Result (List PeerMetric) = (do
      j ← lower_child h i n
      let sink : Result (List PeerMetric) = (do b ← swap h i j; down k b j n)
      below ← less h j i
      (if below then sink else ok h)) in
    if ltb (2 * i + 1) n then step else ok h

unfoldable pub heap_push : List PeerMetric → PeerMetric → Result (List PeerMetric)
unfolding up
heap_push h item = up (length h + 1) (h ++ item ∷ []) (length h)

unfoldable pub heap_pop : List PeerMetric → Result (PeerMetric × List PeerMetric)
unfolding swap down
heap_pop h = do
  let n = length h - 1
  b ← swap h 0 n
  c ← down (n + 1) b 0 n
  item ← or_panic (get_elem? c n)
  ok (item, take n c)

unfoldable pub new_xor_distance_pq : Hash → DistancePq
new_xor_distance_pq from = record { origin = from; heap = [] }

unfoldable pub queue_length : DistancePq → ℕ
queue_length pq = length pq.heap

unfoldable pub enqueue : Bytes → DistancePq → Result DistancePq
unfolding heap_push
enqueue p pq = do
  distance ← hash_xor_distance p pq.origin
  h ← heap_push pq.heap (record { peer = p; metric = distance })
  ok (record pq { heap = h })

unfoldable pub dequeue : DistancePq → Result (Bytes × DistancePq)
unfolding heap_pop
dequeue pq =
    let popped : Result (Bytes × DistancePq) = (do
      (o, h) ← heap_pop pq.heap
      ok (o.peer, record pq { heap = h })) in
    if ltb (length pq.heap) 1 then panic else popped
